-- ===== src/Lte/Wait.antt =====
-- The loop `lte_wait` of src/main.c.
use nrf.Base.{
  ℕ, zero, suc, ◌+◌, ◌<◌, ◌≡◌, refl, Option, none, some, ◌==◌, if◌then◌else◌, ap, ◌∙◌, arith, ◌⊎◌,
}
use nrf.Base.Run.{Run, ok, undefined, out_of_fuel}

-- The registration status that the modem reports.
abbrev lte_cereg_not_registered : ℕ
lte_cereg_not_registered = 0

abbrev lte_cereg_registered_home : ℕ
lte_cereg_registered_home = 1

abbrev lte_cereg_searching : ℕ
lte_cereg_searching = 2

abbrev lte_cereg_registration_denied : ℕ
lte_cereg_registration_denied = 3

abbrev lte_cereg_unknown : ℕ
lte_cereg_unknown = 4

abbrev lte_cereg_registered_roaming : ℕ
lte_cereg_registered_roaming = 5

abbrev lte_cereg_uicc_fail : ℕ
lte_cereg_uicc_fail = 90

-- The `switch` on the registration status: the result if it returns.
unfoldable pub on_status : ℕ → Option ℕ
on_status status =
    if status == lte_cereg_not_registered
    then none
    else if status == lte_cereg_registered_home
    then some 0
    else if status == lte_cereg_searching
    then none
    else if status == lte_cereg_registration_denied
    then some 1
    else if status == lte_cereg_unknown
    then none
    else if status == lte_cereg_registered_roaming
    then some 0
    else if status == lte_cereg_uicc_fail
    then some 1
    else none

-- The variable `status` after a scan: one that fails leaves it as it was.
abbrev pub scanned : Option ℕ → Option ℕ → Option ℕ
scanned none status = status
scanned (some s) status = some s

-- `polls i` is the status that the answer to the i-th AT+CEREG? had, if it could be scanned. The
-- variable has no value at first: a switch on it then is undefined. Each round takes one fuel.
unfoldable pub wait_loop : (fuel : ℕ) (polls : ℕ → Option ℕ) (i : ℕ) (status : Option ℕ) → Run ℕ
wait_loop zero polls i status = out_of_fuel
wait_loop (suc fuel) polls i status = elim (scanned (polls i) status) [
  | none ↦ undefined
  | some s ↦ elim (on_status s) [ some r ↦ ok r | none ↦ wait_loop fuel polls (suc i) (some s) ]
]

unfoldable pub lte_wait : (polls : ℕ → Option ℕ) (fuel : ℕ) → Run ℕ
lte_wait polls fuel = wait_loop fuel polls 0 none

-- A poll after which the loop goes on.
abbrev pub Undecided : Option ℕ → Type 0
Undecided poll = (s : ℕ) → poll ≡ some s → on_status s ≡ none

-- A round that does not return goes on with a status that does not return either.
wait_loop-continues :
    (fuel : ℕ) (polls : ℕ → Option ℕ) (i s0 : ℕ)
    → on_status s0 ≡ none
    → (p : Option ℕ) → polls i ≡ p
    → Undecided p
    → (s1 : ℕ) × (on_status s1 ≡ none)
      × (wait_loop (suc fuel) polls i (some s0) ≡ wait_loop fuel polls (suc i) (some s1))
unfolding wait_loop
wait_loop-continues fuel polls i s0 h0 none eq un = (s0, h0, rw (eq, wait_loop) (rw h0 refl))
wait_loop-continues fuel polls i s0 h0 (some s) eq un =
    (s, un s refl, rw (eq, wait_loop) (rw (un s refl) refl))

wait_loop-decided :
    (polls : ℕ → Option ℕ) (k i fuel s0 s r : ℕ)
    → on_status s0 ≡ none
    → ((j : ℕ) → j < k → Undecided (polls (i + j)))
    → polls (i + k) ≡ some s
    → on_status s ≡ some r
    → k < fuel
    → wait_loop fuel polls i (some s0) ≡ ok r
unfolding wait_loop
wait_loop-decided polls k i zero s0 s r h0 before at decided enough = absurd (omega arith)
wait_loop-decided polls zero i (suc fuel) s0 s r h0 before at decided enough =
    let at' : polls i ≡ some s = ap polls (omega arith) ∙ at in
    rw (at', wait_loop) (rw decided refl)
wait_loop-decided polls (suc k) i (suc fuel) s0 s r h0 before at decided enough =
    let rest : (s1 : ℕ) → on_status s1 ≡ none → wait_loop fuel polls (suc i) (some s1) ≡ ok r =
      λ s1 h1.
        wait_loop-decided polls k (suc i) fuel s1 s r h1
          (λ j lt s2 eq. before (suc j) (omega arith) s2 (ap polls (omega arith) ∙ eq))
          (ap polls (omega arith) ∙ at) decided (omega arith) in
    let (s1, h1, step) =
      wait_loop-continues fuel polls i s0 h0 (polls i) refl
        (λ s1 eq. before 0 (omega arith) s1 (ap polls (omega arith) ∙ eq)) in
    step ∙ rest s1 h1

-- `on_status` returns for exactly the states of the enumeration that settle the question.
abbrev pub Settles : ℕ → ℕ → Type 0
Settles status r =
    ((r ≡ 0) × ((status ≡ 1) ⊎ (status ≡ 5))) ⊎ ((r ≡ 1) × ((status ≡ 3) ⊎ (status ≡ 90)))

on_status-Settles : (s r : ℕ) → Settles s r → on_status s ≡ some r
unfolding on_status
on_status-Settles s r h = ground arith

unsettled : (s : ℕ) → ((r : ℕ) → ¬ Settles s r) → on_status s ≡ none
unfolding on_status
unsettled s h = ground (arith, h 0, h 1)

wait_loop-Undecided :
    (polls : ℕ → Option ℕ) (fuel i s0 : ℕ)
    → on_status s0 ≡ none
    → ((j : ℕ) → Undecided (polls j))
    → wait_loop fuel polls i (some s0) ≡ out_of_fuel
unfolding wait_loop
wait_loop-Undecided polls zero i s0 h0 un = refl
wait_loop-Undecided polls (suc fuel) i s0 h0 un =
    let (s1, h1, step) = wait_loop-continues fuel polls i s0 h0 (polls i) refl (un i) in
    step ∙ wait_loop-Undecided polls fuel (suc i) s1 h1 un

-- The first answer of the modem that can be scanned and settles the question ends the loop with its
-- result, 0 for registered at home or roaming and 1 for denied or no SIM card, given fuel for as
-- many rounds as there were answers. Answers that cannot be scanned or settle nothing may come
-- before it, but the first answer of all is one that can be scanned.
pub lte_wait-Settles :
    (polls : ℕ → Option ℕ) (k fuel first s r : ℕ)
    → polls 0 ≡ some first
    → ((j : ℕ) → j < k → (t : ℕ) → polls j ≡ some t → (q : ℕ) → ¬ Settles t q)
    → polls k ≡ some s
    → Settles s r
    → k < fuel
    → lte_wait polls fuel ≡ ok r
unfolding lte_wait wait_loop
lte_wait-Settles polls k zero first s r start before at settled enough = absurd (omega arith)
lte_wait-Settles polls zero (suc fuel) first s r start before at settled enough =
    rw (at, lte_wait, wait_loop) (rw (on_status-Settles s r settled) refl)
lte_wait-Settles polls (suc k) (suc fuel) first s r start before at settled enough =
    let undecided : (j : ℕ) → j < suc k → Undecided (polls j) =
      λ j lt t eq. unsettled t (before j lt t eq) in
    let h1 : on_status first ≡ none = undecided 0 (omega arith) first start in
    let step : lte_wait polls (suc fuel) ≡ wait_loop fuel polls 1 (some first) =
      rw (start, lte_wait, wait_loop) (rw h1 refl) in
    step
    ∙ wait_loop-decided polls k 1 fuel first s r h1
        (λ j lt t eq. undecided (suc j) (omega arith) t (ap polls (omega arith) ∙ eq))
        (ap polls (omega arith) ∙ at) (on_status-Settles s r settled) (omega arith)

-- Without a first answer that can be scanned the loop tests a variable that has no value.
pub lte_wait-unscanned :
    (polls : ℕ → Option ℕ) (fuel : ℕ) → polls 0 ≡ none → lte_wait polls (suc fuel) ≡ undefined
unfolding lte_wait wait_loop
lte_wait-unscanned polls fuel h = rw (h, lte_wait, wait_loop) refl

-- If the first answer can be scanned and no answer that can be scanned ever settles the question,
-- no number of rounds is enough for the loop.
pub lte_wait-forever :
    (polls : ℕ → Option ℕ) (fuel first : ℕ)
    → polls 0 ≡ some first
    → ((j t : ℕ) → polls j ≡ some t → (q : ℕ) → ¬ Settles t q)
    → lte_wait polls fuel ≡ out_of_fuel
unfolding lte_wait wait_loop
lte_wait-forever polls zero first start never = refl
lte_wait-forever polls (suc fuel) first start never =
    let undecided : (j : ℕ) → Undecided (polls j) = λ j t eq. unsettled t (never j t eq) in
    let h1 : on_status first ≡ none = undecided 0 first start in
    let step : lte_wait polls (suc fuel) ≡ wait_loop fuel polls 1 (some first) =
      rw (start, lte_wait, wait_loop) (rw h1 refl) in
    step ∙ wait_loop-Undecided polls fuel 1 first h1 undecided
