-- ===== src/Modem/Notify.antt =====
-- The walks of src/nrf_modem.c over the list of sleepers, and what they have posted at their end.
use nrf.Base.{
  ℕ, zero, suc, ◌<◌, ◌==◌, ◌≡◌, refl, ap, ◌∙◌, ◌&&◌, ◌||◌, Bool, true, false, Option, none, some,
  List, [], ◌∷◌, arith, length, if◌then◌else◌, Bool-cases, ==_iff, ◌⊎◌, inl, inr,
}
use nrf.Base.Run.{Returns, Returns-mono}
use nrf.Modem.Kernel.{Ptr, Kernel, has, Distinct, Chain, is_nil}
use nrf.Modem.Waiters.{
  Os, td_first, td_next, post, is_addressed, notify_loop, nrf_modem_os_event_notify, shutdown_loop,
  nrf_modem_os_shutdown,
}

module _ (k : Kernel) where
  open k use {Sem, sem_post, Links, head, nodes, next, list_empty, list_empty_lem, chain}

  -- The list holds each entry once, and not the list head.
  abbrev pub IsWell : Links → Type 0
  IsWell l = Distinct (nodes l) × (has head (nodes l) ≡ false)

  -- Once more to each address of `xs` that `chosen` picks, and to no other.
  pub record Posted (chosen : Ptr → Bool) (xs : List Ptr) (os os' : Os k) : Type 0 where
    pub links : os'.links ≡ os.links
    pub context : os'.context ≡ os.context
    pub sem :
        (a : Ptr) → os'.sem a ≡ (if has a xs && chosen a then sem_post (os.sem a) else os.sem a)

  -- The first entry after `p`.
  abbrev pub entry : List Ptr → Option Ptr
  entry [] = none
  entry (x ∷ xs) = some x

  pub td_next-entry :
      (os : Os k) (p : Ptr) (xs : List Ptr)
      → Chain (next os.links) head p xs
      → td_next k os p ≡ entry xs
  unfolding td_next
  td_next-entry os p [] c = ground arith
  td_next-entry os p (x ∷ xs) c = ground arith

  pub td_first-entry : (os : Os k) → IsWell os.links → td_first k os ≡ entry (nodes os.links)
  unfolding td_first
  td_first-entry os (d, h) = first (nodes os.links) (list_empty_lem os.links) (chain os.links d h)
    where
      first :
          (xs : List Ptr)
          → list_empty os.links ≡ is_nil xs
          → Chain (next os.links) head head xs
          → (if list_empty os.links then none else some (next os.links head)) ≡ entry xs
      first [] e c = rw e
      first (x ∷ xs) e c = rw (e, c.0)

  -- Posting to `x` first, and then to the chosen ones of `xs`.
  Posted-cons :
      (chosen : Ptr → Bool) (x : Ptr) (xs : List Ptr) (os os' : Os k)
      → chosen x ≡ true
      → has x xs ≡ false
      → Posted chosen xs (post k x os) os'
      → Posted chosen (x ∷ xs) os os'
  Posted-cons chosen x xs os os' hit new p = record {
    links = p.links;
    context = p.context;
    sem = λ a. p.sem a ∙ at a (Bool-cases (a == x));
  }
    where
      at :
          (a : Ptr)
          → ((a == x) ≡ true) ⊎ ((a == x) ≡ false)
          → (if has a xs && chosen a then sem_post ((post k x os).sem a) else (post k x os).sem a)
            ≡ (if ((a == x) || has a xs) && chosen a then sem_post (os.sem a) else os.sem a)
      at a (inl e) =
          let same : a ≡ x = (==_iff a x).0 e in
          let out : has a xs ≡ false = ap (λ b. has b xs) same ∙ new in
          let in_ : chosen a ≡ true = ap chosen same ∙ hit in rw (e, out, in_)
      at a (inr e) = rw e

  Posted-skip :
      (chosen : Ptr → Bool) (x : Ptr) (xs : List Ptr) (os os' : Os k)
      → chosen x ≡ false
      → has x xs ≡ false
      → Posted chosen xs os os'
      → Posted chosen (x ∷ xs) os os'
  Posted-skip chosen x xs os os' miss new p = record {
    links = p.links;
    context = p.context;
    sem = λ a. p.sem a ∙ at a (Bool-cases (a == x));
  }
    where
      at :
          (a : Ptr)
          → ((a == x) ≡ true) ⊎ ((a == x) ≡ false)
          → (if has a xs && chosen a then sem_post (os.sem a) else os.sem a)
            ≡ (if ((a == x) || has a xs) && chosen a then sem_post (os.sem a) else os.sem a)
      at a (inl e) =
          let same : a ≡ x = (==_iff a x).0 e in
          let out : has a xs ≡ false = ap (λ b. has b xs) same ∙ new in
          let in_ : chosen a ≡ false = ap chosen same ∙ miss in rw (e, out, in_)
      at a (inr e) = rw e

  notify_loop-Posted :
      (context fuel : ℕ) (xs : List Ptr) (os : Os k) (p : Ptr)
      → length xs < fuel
      → Distinct xs
      → Chain (next os.links) head p xs
      → Returns
          (Posted (is_addressed k context os) xs os)
          (notify_loop k fuel context (entry xs) os)
  unfolding notify_loop
  notify_loop-Posted context zero xs os p lt d c = absurd (omega arith)
  notify_loop-Posted context (suc fuel) [] os p lt d c = record {
    links = refl;
    context = refl;
    sem = λ a. refl;
  }
  notify_loop-Posted context (suc fuel) (x ∷ xs) os p lt (new, d) (e, ne, c) =
      elim (Bool-cases (is_addressed k context os x)) [
        | inl hit ↦
            rw (hit, td_next-entry (post k x os) x xs c)
              (Returns-mono _ _ _
                (notify_loop-Posted context fuel xs (post k x os) x (omega arith) d c)
                (λ os' q. Posted-cons (is_addressed k context os) x xs os os' hit new q))
        | inr miss ↦
            rw (miss, td_next-entry os x xs c)
              (Returns-mono _ _ _ (notify_loop-Posted context fuel xs os x (omega arith) d c)
                (λ os' q. Posted-skip (is_addressed k context os) x xs os os' miss new q))
      ]

  -- A walk over a list of distinct sleepers without the list head ends, given fuel for one round
  -- more than their number. It has posted exactly once to each sleeper that waits on the context,
  -- to all of them if the context is 0, to nothing else, and has changed neither the list nor a
  -- context.
  pub nrf_modem_os_event_notify-Posted :
      (context fuel : ℕ) (os : Os k)
      → length (nodes os.links) < fuel
      → IsWell os.links
      → Returns
          (Posted (is_addressed k context os) (nodes os.links) os)
          (nrf_modem_os_event_notify k fuel context os)
  unfolding nrf_modem_os_event_notify
  nrf_modem_os_event_notify-Posted context fuel os lt (d, h) =
      rw (td_first-entry os (d, h))
        (notify_loop-Posted context fuel (nodes os.links) os head lt d (chain os.links d h))

  shutdown_loop-Posted :
      (fuel : ℕ) (xs : List Ptr) (os : Os k) (p : Ptr)
      → length xs < fuel
      → Distinct xs
      → Chain (next os.links) head p xs
      → Returns (Posted (λ a. true) xs os) (shutdown_loop k fuel (entry xs) os)
  unfolding shutdown_loop
  shutdown_loop-Posted zero xs os p lt d c = absurd (omega arith)
  shutdown_loop-Posted (suc fuel) [] os p lt d c = record {
    links = refl;
    context = refl;
    sem = λ a. refl;
  }
  shutdown_loop-Posted (suc fuel) (x ∷ xs) os p lt (new, d) (e, ne, c) =
      rw (td_next-entry (post k x os) x xs c) (
        Returns-mono _ _ _ (shutdown_loop-Posted fuel xs (post k x os) x (omega arith) d c)
          (λ os' q. Posted-cons (λ a. true) x xs os os' refl new q))

  -- The shutdown of a list of distinct sleepers without the list head ends, given fuel for one
  -- round more than their number. It has posted exactly once to every sleeper, whatever its
  -- context, to nothing else, and has changed neither the list nor a context.
  pub nrf_modem_os_shutdown-Posted :
      (fuel : ℕ) (os : Os k)
      → length (nodes os.links) < fuel
      → IsWell os.links
      → Returns (Posted (λ a. true) (nodes os.links) os) (nrf_modem_os_shutdown k fuel os)
  unfolding nrf_modem_os_shutdown
  nrf_modem_os_shutdown-Posted fuel os lt (d, h) =
      rw (td_first-entry os (d, h))
        (shutdown_loop-Posted fuel (nodes os.links) os head lt d (chain os.links d h))
