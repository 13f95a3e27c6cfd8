-- ===== src/Quotes/Fetch.antt =====
-- A request to CoinGecko that is sent again while there are too many: `fetch_delayed` of
-- api/ext/exchanges/coingecko.py. The answers to the requests are an argument, by their number; keyword
-- arguments are known by their names. A call with a keyword twice is an exception, as in Python.
use bitcart.Base.{
  ℕ, zero, suc, ◌+◌, ◌*◌, ◌≤◌, ◌≡◌, refl, true, false, Option, none, some, List, contains, arith,
  ltb, ◌==◌, if◌then◌else◌, Bool-cases, Option-cases, inl, inr, ◌⊎◌, ◌∙◌, sym,
}

-- The keyword arguments that the exchanges use.
abbrev pub return_json : ℕ
return_json = 0

abbrev pub headers : ℕ
headers = 1

-- `send_request(*args, return_json=False, **kwargs)`; the answer is a status and a text.
unfoldable pub send_request : {T : Type 0} → List ℕ → Option (ℕ × T) → Option (ℕ × T)
send_request kwargs answer = if contains return_json kwargs then none else answer

-- What a call ends with, how often it asked, and how many seconds it waited.
pub record Fetched (V : Type 0) : Type 0 where
  pub value : Option V
  pub requests : ℕ
  pub waited : ℕ

module _ {T V : Type 0} (loads : T → Option V) (answers : ℕ → Option (ℕ × T))
    (kwargs : List ℕ) where
  -- The call number `n`, with fuel; outer `none` if it ran out. An exception has no value.
  unfoldable pub fetch_delayed : ℕ → ℕ → ℕ → ℕ → Option (Fetched V)
  fetch_delayed zero n delay waited = none
  fetch_delayed (suc fuel) n delay waited =
      let rest = fetch_delayed fuel (suc n) (delay * 2) (waited + delay) in
      elim (send_request kwargs (answers n)) [
        | none ↦ some (record { value = none; requests = suc n; waited = waited })
        | some (status, text) ↦
            if status == 429
            then (if ltb delay 60
                then rest
                else some (record { value = none; requests = suc n; waited = waited }))
            else some (record { value = loads text; requests = suc n; waited = waited })
      ]

  -- The value of the first of so many answers, from a number on, that is not a refusal.
  unfoldable pub first_value : ℕ → ℕ → Option V
  first_value zero n = none
  first_value (suc k) n =
      let rest = first_value k (suc n) in
      elim (send_request kwargs (answers n)) [
        | none ↦ none
        | some (status, text) ↦ if status == 429 then rest else loads text
      ]

  -- A delay that becomes 64 after so many doublings.
  Doubles : ℕ → ℕ → Type 0
  Doubles zero delay = delay ≡ 64
  Doubles (suc k) delay = Doubles k (delay * 2)

  Doubles-le : (k delay : ℕ) → Doubles k delay → delay ≤ 64
  unfolding Doubles
  Doubles-le zero delay h = omega arith
  Doubles-le (suc k) delay h = omega (arith, Doubles-le k (delay * 2) h)

  Doubles-suc : (k delay : ℕ) → Doubles (suc k) delay → delay ≤ 32
  unfolding Doubles
  Doubles-suc k delay h = omega (arith, Doubles-le k (delay * 2) h)

  -- A call ends within its bounds, with the value of the first answer that is not a refusal.
  abbrev Ends : ℕ → ℕ → ℕ → ℕ → Type 0
  Ends k n delay waited =
      (r : Fetched V) × (fetch_delayed (suc k) n delay waited ≡ some r)
      × (r.value ≡ first_value (suc k) n)
      × (r.requests ≤ n + suc k)
      × (r.waited + delay ≤ waited + 64)

  Ends-now :
      (k n delay waited : ℕ) (v : Option V)
      → delay ≤ 64
      → fetch_delayed (suc k) n delay waited
        ≡ some (record { value = v; requests = suc n; waited = waited })
      → v ≡ first_value (suc k) n
      → Ends k n delay waited
  Ends-now k n delay waited v h ends first = (
    record { value = v; requests = suc n; waited = waited },
    ends,
    first,
    omega arith,
    omega (arith, h),
  )

  -- An answer that is no refusal, and an exception.
  Ends-answered :
      (k n delay waited : ℕ)
      → delay ≤ 64
      → ((send_request kwargs (answers n) ≡ none)
          ⊎ ((a : ℕ × T) × (send_request kwargs (answers n) ≡ some a) × ((a.0 == 429) ≡ false)))
      → Ends k n delay waited
  unfolding fetch_delayed first_value
  Ends-answered k n delay waited h (inl e) =
      Ends-now k n delay waited none h (rw (e, fetch_delayed)) (rw (e, first_value))
  Ends-answered k n delay waited h (inr ((status, text), e, other)) =
      Ends-now k n delay waited (loads text) h (rw (e, fetch_delayed) (rw other))
        (rw (e, first_value) (rw other))

  module _ (n delay waited status : ℕ) (text : T)
      (e : send_request kwargs (answers n) ≡ some (status, text))
      (limited : (status == 429) ≡ true) where
    -- A refusal at the last delay.
    Ends-late : delay ≡ 64 → Ends 0 n delay waited
    unfolding fetch_delayed first_value
    Ends-late h =
        let late : ltb delay 60 ≡ false = ground (arith, h) in
        Ends-now 0 n delay waited none (omega (arith, h))
          (rw (e, fetch_delayed) (rw (limited, late))) (rw (e, first_value) (rw limited))

    -- A refusal before it.
    Ends-again :
        (k : ℕ)
        → delay ≤ 32
        → Ends k (suc n) (delay * 2) (waited + delay)
        → Ends (suc k) n delay waited
    unfolding fetch_delayed first_value
    Ends-again k h (r, ends, first, few, short) =
        let soon : ltb delay 60 ≡ true = ground (arith, h) in
        (
          r,
          rw (e, fetch_delayed) (rw (limited, soon) ends),
          first ∙ sym (rw (e, first_value) (rw limited)),
          omega (arith, few),
          omega (arith, short),
        )

  answer-cases :
      (n : ℕ)
      → ((send_request kwargs (answers n) ≡ none)
          ⊎ ((a : ℕ × T) × (send_request kwargs (answers n) ≡ some a) × ((a.0 == 429) ≡ false)))
        ⊎ ((a : ℕ × T) × (send_request kwargs (answers n) ≡ some a) × ((a.0 == 429) ≡ true))
  answer-cases n = elim (Option-cases (send_request kwargs (answers n))) [
    | inl e ↦ inl (inl e)
    | inr ((status, text), e) ↦ elim (Bool-cases (status == 429)) [
      | inl limited ↦ inr ((status, text), e, limited)
      | inr other ↦ inl (inr ((status, text), e, other))
    ]
  ]

  attempts-first : (k n delay waited : ℕ) → Doubles k delay → Ends k n delay waited
  unfolding Doubles
  attempts-first zero n delay waited h = elim (answer-cases n) [
    | inl answered ↦ Ends-answered 0 n delay waited (omega (arith, h)) answered
    | inr ((status, text), e, limited) ↦ Ends-late n delay waited status text e limited h
  ]
  attempts-first (suc k) n delay waited h = elim (answer-cases n) [
    | inl answered ↦ Ends-answered (suc k) n delay waited (Doubles-le (suc k) delay h) answered
    | inr ((status, text), e, limited) ↦
        Ends-again n delay waited status text e limited k (Doubles-suc k delay h)
          (attempts-first k (suc n) (delay * 2) (waited + delay) h)
  ]

  -- With the delay of one second at first, a call ends after at most seven requests and 63 seconds of
  -- waiting, with the value of the first answer that is not a refusal, if that is one of the seven, and
  -- with an exception otherwise.
  pub fetch_delayed-first :
      (r : Fetched V) × (fetch_delayed 7 0 1 0 ≡ some r)
      × (r.value ≡ first_value 7 0)
      × (r.requests ≤ 7)
      × (r.waited ≤ 63)
  unfolding Doubles
  fetch_delayed-first =
      let (r, ends, first, few, short) = attempts-first 6 0 1 0 refl in
      (r, ends, first, omega (arith, few), omega (arith, short))
