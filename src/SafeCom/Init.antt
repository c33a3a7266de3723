-- ===== src/SafeCom/Init.antt =====
-- `SafeCom_Init_Impl` (safecom/src/safecom_impl.c): what each machine of the array is afterwards.
use rasta_s.Prelude.{
  ℕ, zero, suc, ◌+◌, ◌≤◌, ◌<◌, ◌≡◌, ◌≢◌, ◌⊎◌, inl, inr, refl, sym, ap, ◌∙◌, arith, List, [], ◌∷◌,
  Result, ok, ◌>>=◌, length, set, length-set,
}
use native.Mathlib.Decide.{ℕ_discrete}
use rasta_s.Sm.Types.{SmType, SmRole, SafeComVtable, vtable_at, current_timestamp}
use rasta_s.SafeCom.Types.{SafeComType}
use rasta_s.SafeCom.Impl.{element, connect_first, init_machine, init_loop, init_array}
use rasta_s.SafeCom.Array.{element-set_self, element-set_ne}

element_total : (xs : List SmType) (i : ℕ) → i < length xs → (s : SmType) × (element xs i ≡ ok s)
unfolding element
element_total [] i h = absurd (omega arith)
element_total (x ∷ xs) zero h = (x, refl)
element_total (x ∷ xs) (suc i) h = element_total xs i (omega arith)

-- `ys` is `xs` with the machines from `lo` to `hi` initialised, each with its own channel.
pub record IsInitialised (role : SmRole) (lo hi : ℕ) (xs ys : List SmType) : Type 0 where
  pub same_length : length ys ≡ length xs
  pub inside :
      (j : ℕ) (s : SmType)
      → lo ≤ j
      → j < hi
      → element xs j ≡ ok s
      → element ys j ≡ ok (init_machine role j s)
  pub outside : (j : ℕ) → (j < lo) ⊎ (hi ≤ j) → element ys j ≡ element xs j

IsInitialised-set :
    (role : SmRole) (lo hi : ℕ) (xs ys : List SmType) (s : SmType)
    → lo < hi
    → element xs lo ≡ ok s
    → IsInitialised role (lo + 1) hi (set xs lo (init_machine role lo s)) ys
    → IsInitialised role lo hi xs ys
IsInitialised-set role lo hi xs ys s below at_lo rest = record {
  same_length = rest.same_length ∙ length-set xs lo (init_machine role lo s);
  inside = λ j t p q at_j. elim (ℕ_discrete j lo) [
    | yes e ↦ first j t e at_j
    | no ne ↦ rest.inside j t (omega arith) q (element-set_ne xs lo j _ ne ∙ at_j)
  ];
  outside = λ j p. rest.outside j (beyond j p) ∙ element-set_ne xs lo j _ (apart j p);
}
  where
    beyond : (j : ℕ) → (j < lo) ⊎ (hi ≤ j) → (j < lo + 1) ⊎ (hi ≤ j)
    beyond j p = omega arith

    apart : (j : ℕ) → (j < lo) ⊎ (hi ≤ j) → j ≢ lo
    apart j p = omega arith

    first :
        (j : ℕ) (t : SmType)
        → j ≡ lo
        → element xs j ≡ ok t
        → element ys j ≡ ok (init_machine role j t)
    first j t e at_j = rw e (
        rest.outside lo (inl (omega arith))
        ∙ element-set_self xs lo s _ at_lo
        ∙ ap (λ (r : Result SmType). r >>= λ u. ok (init_machine role lo u))
            (sym at_lo ∙ (rw e at at_j)))

-- The loop reads and writes inside the array, and initialises exactly its range.
pub init_loop-IsInitialised :
    (role : SmRole) (rounds lo hi : ℕ) (xs : List SmType)
    → lo + rounds ≡ hi
    → hi ≤ length xs
    → (ys : List SmType) × (init_loop role rounds lo xs ≡ ok ys) × IsInitialised role lo hi xs ys
unfolding init_loop
init_loop-IsInitialised role zero lo hi xs e h = (
  xs,
  refl,
  record { same_length = refl; inside = λ j s p q _. absurd (omega arith); outside = λ j p. refl },
)
init_loop-IsInitialised role (suc rounds) lo hi xs e h =
    let (s, at_lo) = element_total xs lo (omega arith) in
    let (ys, returns, rest) =
      init_loop-IsInitialised role rounds (lo + 1) hi (set xs lo (init_machine role lo s))
        (omega arith) (omega (arith, length-set xs lo (init_machine role lo s))) in
    (ys, rw at_lo returns, IsInitialised-set role lo hi xs ys s (omega arith) at_lo rest)

-- The first machine before its initialisation: with the callbacks and the clock.
abbrev pub connect : SafeComVtable → SmType → SmType
connect v s = record s {
  vtable = vtable_at v;
  time = record (s.time) { tlocal = current_timestamp };
}

-- The machines that the loop starts from.
abbrev pub prepared : SafeComVtable → ℕ → SmType → SmType
prepared v zero s = connect v s
prepared v (suc j) s = s

element-connect :
    (v : SafeComVtable) (x : SmType) (xs : List SmType) (j : ℕ) (s : SmType)
    → element (x ∷ xs) j ≡ ok s
    → element (connect v x ∷ xs) j ≡ ok (prepared v j s)
unfolding element
element-connect v x xs zero s h = ap (λ (r : Result SmType). r >>= λ u. ok (connect v u)) h
element-connect v x xs (suc j) s h = h

element-beyond :
    (v : SafeComVtable) (x : SmType) (xs : List SmType) (j : ℕ)
    → 0 < j
    → element (connect v x ∷ xs) j ≡ element (x ∷ xs) j
unfolding element
element-beyond v x xs zero h = absurd (omega arith)
element-beyond v x xs (suc j) h = refl

-- On an array with room for every connection the initialisation returns, every connection below
-- `max_connections` is an initialised machine with its own channel, and those beyond are left as
-- they were; but only the first has been given the callbacks and the clock.
pub init_array-IsInitialised :
    (config : SafeComType) (xs : List SmType)
    → 0 < config.config.max_connections
    → config.config.max_connections ≤ length xs
    → (ys : List SmType) × (init_array config xs ≡ ok ys)
      × (length ys ≡ length xs)
      × ((j : ℕ) (s : SmType)
          → j < config.config.max_connections
          → element xs j ≡ ok s
          → element ys j ≡ ok (init_machine config.config.role j (prepared config.vtable j s)))
      × ((j : ℕ) → config.config.max_connections ≤ j → element ys j ≡ element xs j)
unfolding init_array connect_first
init_array-IsInitialised config [] some_connection room = absurd (omega arith)
init_array-IsInitialised config (x ∷ xs) some_connection room =
    let (ys, returns, all) =
      init_loop-IsInitialised config.config.role config.config.max_connections 0
        config.config.max_connections (connect config.vtable x ∷ xs) (omega arith) room in
    (
      ys,
      returns,
      all.same_length,
      (λ j s below at_j.
          all.inside j (prepared config.vtable j s) (omega arith) below
            (element-connect config.vtable x xs j s at_j)),
      (λ j above. all.outside j (inr above) ∙ element-beyond config.vtable x xs j (omega arith)),
    )
