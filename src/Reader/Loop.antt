-- ===== src/Reader/Loop.antt =====
-- The loops of memory_reader.py that go round the watched entries: `while len(taken) < len(watched)`,
-- with a `break` where the request is full.
use scrutiny.Prelude.{
  ℕ, zero, suc, ◌+◌, ◌<◌, ◌≤◌, ◌≡◌, refl, ◌∙◌, true, false, Option, some, none, arith, inl, inr,
  ◌⊎◌, ltb, ltb→le, ltb→lt, Bool-cases, Result, ok, err, out_of_fuel,
}

module _ {T : Type 0} where
  -- `dealt` counts the rounds against n; a round's `none` is a `break`. On fuel.
  unfoldable pub loop : ℕ → (T → ℕ) → ℕ → (T → Result (Option T)) → T → Result T
  loop zero dealt n visit t = err out_of_fuel
  loop (suc fuel) dealt n visit t = elim (ltb (dealt t) n) [
    | false ↦ ok t
    | true ↦ elim (visit t) [
      | err e ↦ err e
      | ok none ↦ ok t
      | ok (some t') ↦ loop fuel dealt n visit t'
    ]
  ]

  -- A round does not raise, keeps P and deals with one entry more, or ends the loop.
  abbrev pub Keeps : (T → ℕ) → (T → Type 0) → T → Result (Option T) → Type 0
  Keeps dealt P t (err e) = ⊥
  Keeps dealt P t (ok none) = Unit
  Keeps dealt P t (ok (some t')) = P t' × (dealt t' ≡ suc (dealt t))

  -- Why the loop ended.
  abbrev pub Ended : (T → ℕ) → ℕ → (T → Result (Option T)) → T → Type 0
  Ended dealt n visit t = (n ≤ dealt t) ⊎ (visit t ≡ ok none)

  module _ (dealt : T → ℕ) (n : ℕ) (visit : T → Result (Option T)) where
    module _ (fuel : ℕ) (t : T) where
      stops : ltb (dealt t) n ≡ false → loop (suc fuel) dealt n visit t ≡ ok t
      unfolding loop
      stops h = rw (h, loop) refl

      ends : ltb (dealt t) n ≡ true → visit t ≡ ok none → loop (suc fuel) dealt n visit t ≡ ok t
      unfolding loop
      ends h e = rw (h, loop) (rw e refl)

      goes_on :
          (t' : T)
          → ltb (dealt t) n ≡ true
          → visit t ≡ ok (some t')
          → loop (suc fuel) dealt n visit t ≡ loop fuel dealt n visit t'
      unfolding loop
      goes_on t' h e = rw (h, loop) (rw e refl)

    module _ (P : T → Type 0)
        (round : (t : T) → P t → dealt t < n → Keeps dealt P t (visit t)) where
      abbrev Goal : ℕ → T → Type 0
      Goal fuel t = (t' : T) × (loop fuel dealt n visit t ≡ ok t') × P t' × Ended dealt n visit t'

      -- With fuel for the entries that are left the loop ends, and P holds at its end.
      pub loop_ind : (fuel : ℕ) (t : T) → P t → n < fuel + dealt t → dealt t ≤ n → Goal fuel t
      loop_ind zero t h enough le = absurd (omega arith)
      loop_ind (suc fuel) t h enough le = elim (Bool-cases (ltb (dealt t) n)) [
        | inl more ↦
            go (visit t) refl more (round t h (ltb→lt _ _ more)) (λ t' h' e.
              loop_ind fuel t' h' (omega (arith, e)) (omega (arith, e, ltb→lt _ _ more)))
        | inr done ↦ (t, stops fuel t done, h, inl (ltb→le _ _ done))
      ]
        where
          go :
              (r : Result (Option T))
              → visit t ≡ r
              → ltb (dealt t) n ≡ true
              → Keeps dealt P t r
              → ((t' : T) → P t' → dealt t' ≡ suc (dealt t) → Goal fuel t')
              → Goal (suc fuel) t
          go (err e) run more k rest = absurd k
          go (ok none) run more k rest = (t, ends fuel t more run, h, inr run)
          go (ok (some t')) run more k rest =
              let (last, runs, holds, end) = rest t' k.0 k.1 in
              (last, goes_on fuel t t' more run ∙ runs, holds, end)
