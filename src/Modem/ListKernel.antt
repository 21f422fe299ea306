-- ===== src/Modem/ListKernel.antt =====
-- A kernel for runs of src/nrf_modem.c: its semaphores are numbers, and its lists are lists. A state
-- in which one thread sleeps.
use nrf.Base.{
  ◌+◌, ℕ, suc, ◌==◌, ==_iff, ◌≡◌, refl, sym, ap, ◌∙◌, inl, inr, ◌||◌, true, false, List, [], ◌∷◌,
  ◌++◌, arith, Bool-cases, if◌then◌else◌,
}
use nrf.Base.Int.{pos}
use nrf.Modem.Timedwait.{enqueue, timedwait_enter}
use nrf.Modem.System.{System, outside, asleep, Reach, start, later, moved, enter}
use nrf.Modem.System.Invariant.{Frames}
use nrf.Modem.Kernel.{Ptr, Kernel, has, Distinct, erase, is_nil, Chain}

-- The entry behind `p` in a list whose head stands in front as `prev`; the head is 0.
abbrev pub next_in : Ptr → List Ptr → Ptr → Ptr
next_in prev [] p = 0
next_in prev (x ∷ xs) p = if prev == p then x else next_in x xs p

behind :
    (p x : Ptr) (xs : List Ptr) (a : Ptr)
    → has p (x ∷ xs) ≡ false
    → has a (x ∷ xs) ≡ true
    → next_in p (x ∷ xs) a ≡ next_in x xs a
behind p x xs a out i = elim (Bool-cases (p == a)) [
  | inl e ↦ cc (sym out ∙ ap (λ b. has b (x ∷ xs)) ((==_iff p a).0 e) ∙ i)
  | inr e ↦ rw e
]

pub Chain-next_in :
    (f : Ptr → Ptr) (p : Ptr) (xs : List Ptr)
    → ((a : Ptr) → ((a == p) || has a xs) ≡ true → f a ≡ next_in p xs a)
    → Distinct (p ∷ xs)
    → has 0 xs ≡ false
    → Chain f 0 p xs
Chain-next_in f p [] same d h = same p (ground arith)
Chain-next_in f p (x ∷ xs) same (new, d) h = (
  same p (ground arith) ∙ ground arith,
  ground arith,
  Chain-next_in f x xs (λ a i. same a (ground arith) ∙ behind p x xs a new i) d (ground arith),
)

abbrev pub lists : Kernel
lists = record {
  Sem = ℕ;
  sem_init = λ n. n;
  sem_post = suc;
  count = λ n. n;
  count-sem_init = λ n. refl;
  count-sem_post = λ n. refl;
  Links = List Ptr;
  head = 0;
  nodes = λ l. l;
  next = λ l p. next_in 0 l p;
  list_init = [];
  list_empty = is_nil;
  list_append = λ l n. l ++ n ∷ [];
  list_remove = λ l n. erase n l;
  nodes-init = refl;
  list_empty_lem = λ l. refl;
  nodes-append = λ l n out ne. refl;
  nodes-remove = λ l n i. refl;
  chain = λ l d h. Chain-next_in (next_in 0 l) 0 l (λ a i. refl) (h, d) h;
}

-- Thread `i` has its record at `i + 1`; thread 0 sleeps on the context 7.
abbrev pub frame : ℕ → Ptr
frame i = i + 1

pub frame-Frames : Frames lists frame
frame-Frames = record { injective = λ i j e. omega arith; no_head = λ i e. omega arith }

abbrev pub quiet : System lists
quiet = record { os = record { links = []; sem = λ a. 0; context = λ a. 0 }; pc = λ i. outside }

abbrev pub one_asleep : System lists
one_asleep = moved lists quiet (enqueue lists 7 1 quiet.os) 0 (asleep 7 (pos 50))

pub one_asleep-Reach : Reach lists frame one_asleep
unfolding timedwait_enter
one_asleep-Reach = later (start quiet refl (λ i. refl)) (enter 0 7 50000 (pos 50) true refl refl)
