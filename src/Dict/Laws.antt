-- ===== src/Dict/Laws.antt =====
-- What a lookup sees after a write, and how a write changes the list of values.
use wotpy.Prelude.{
  ◌≡◌, ◌∙◌, refl, ap, true, false, none, some, [], ◌∷◌, ◌++◌, Eq, ◌==◌, arith, if◌then◌else◌,
}
use wotpy.Dict.{Dict, values, get, contains, set, pop}

module _ {ℓ κ} {K : Type ℓ} {V : Type κ} ⦃e : Eq K⦄ where
  pub get-set :
      (k j : K) (v : V) (d : Dict K V) → get j (set k v d) ≡ (if k == j then some v else get j d)
  unfolding get set
  get-set k j v [] = refl
  get-set k j v ((i, w) ∷ d) =
      ground (arith, e.beq_iff i k, e.beq_iff i j, e.beq_iff k j, get-set k j v d)

  pub get-set_same : (k : K) (v : V) (d : Dict K V) → get k (set k v d) ≡ some v
  get-set_same k v d = get-set k k v d ∙ rw ((e.beq_iff k k).1 refl) refl

  pub get-pop : (k j : K) (d : Dict K V) → get j (pop k d) ≡ (if k == j then none else get j d)
  unfolding get pop
  get-pop k j [] = ground arith
  get-pop k j ((i, w) ∷ d) =
      ground (arith, e.beq_iff i k, e.beq_iff i j, e.beq_iff k j, get-pop k j d)

  pub contains-eq_get-none : (k : K) (d : Dict K V) → get k d ≡ none → contains k d ≡ false
  unfolding get contains
  contains-eq_get-none k [] h = refl
  contains-eq_get-none k ((j, v) ∷ d) h = ground (arith, contains-eq_get-none k d)

  pub contains-get : (k : K) (v : V) (d : Dict K V) → get k d ≡ some v → contains k d ≡ true
  unfolding get contains
  contains-get k v [] h = absurd (ground arith)
  contains-get k v ((j, w) ∷ d) h = ground (arith, contains-get k v d)

  pub contains-set :
      (k j : K) (v : V) (d : Dict K V)
      → contains j (set k v d) ≡ (if k == j then true else contains j d)
  unfolding contains set
  contains-set k j v [] = ground arith
  contains-set k j v ((i, w) ∷ d) =
      ground (arith, e.beq_iff i k, e.beq_iff i j, e.beq_iff k j, contains-set k j v d)

  pub contains-pop :
      (k j : K) (d : Dict K V) → contains j (pop k d) ≡ (if k == j then false else contains j d)
  unfolding contains pop
  contains-pop k j [] = ground arith
  contains-pop k j ((i, w) ∷ d) =
      ground (arith, e.beq_iff i k, e.beq_iff i j, e.beq_iff k j, contains-pop k j d)

  -- A new key goes to the end.
  pub set-new : (k : K) (v : V) (d : Dict K V) → contains k d ≡ false → set k v d ≡ d ++ (k, v) ∷ []
  unfolding contains set
  set-new k v [] h = refl
  set-new k v ((j, w) ∷ d) h = ground (arith, set-new k v d)

module _ {ℓ κ} {K : Type ℓ} {V : Type κ} where
  pub values-append : (c d : Dict K V) → values (c ++ d) ≡ values c ++ values d
  values-append [] d = refl
  values-append ((k, v) ∷ c) d = ap (λ r. v ∷ r) (values-append c d)
