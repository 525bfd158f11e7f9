-- ===== src/Dictionaries/Schemes.antt =====
-- The class that `build` chooses.
use wotpy.Prelude.{
  String, ◌≡◌, ◌∙◌, refl, sym, ap, Bool-cases, inl, inr, true, false, Option, none, some, [], ◌∷◌,
  ◌==◌, string_eq, text_eq, eq_iff, Text, codes, arith, if◌then◌else◌,
}
use mathlib.Core.Path.{subst}
use wotpy.Outcome.{Outcome, ok, raised}
use wotpy.Dict
use wotpy.Dict.{Dict}
use wotpy.Json.{Json, null, bool, integer, real, str, arr, obj}
use wotpy.Dictionaries.{Init, WotClass, merge_args_kwargs_dict, new_wot_dict, get_attribute}
use wotpy.Dictionaries.Classes.{
  security_classes, schema_classes, class_named, with_class, build_found, security_build,
  schema_build,
}

-- The classes have their own names as the constant of this key.
abbrev AllNamed : Text → Dict String WotClass → Type 0
AllNamed key [] = Unit
AllNamed key ((s, c) ∷ cs) = (Dict.get key c.constants ≡ some (str s)) × AllNamed key cs

some_eq : {A : Type 0} {x y : A} → some x ≡ some y → x ≡ y
some_eq {A} {x} h = ap (λ o. elim o [ some z ↦ z | none ↦ x ]) h

named_class :
    (key : Text) (s : String) (c : WotClass) (cs : Dict String WotClass)
    → AllNamed key cs
    → Dict.get s cs ≡ some c
    → Dict.get key c.constants ≡ some (str s)
unfolding Dict.get
named_class key s c [] h e = absurd (ground (arith, e))
named_class key s c ((t, d) ∷ cs) h e = elim (Bool-cases (t == s)) [
  | inr other ↦ named_class key s c cs h.1 (rw_other other)
  | inl same ↦
      subst (λ x. Dict.get key x.constants ≡ some (str s)) (the_class same)
        (subst (λ n. Dict.get key d.constants ≡ some (str n)) ((eq_iff t s).0 same) h.0)
]
  where
    passed : (t == s) ≡ false → (if t == s then some d else Dict.get s cs) ≡ Dict.get s cs
    passed other = rw other refl

    rw_other : (t == s) ≡ false → Dict.get s cs ≡ some c
    rw_other other = sym (passed other) ∙ e

    found : (t == s) ≡ true → (if t == s then some d else Dict.get s cs) ≡ some d
    found same = rw same refl

    the_class : (t == s) ≡ true → d ≡ c
    the_class same = some_eq (sym (found same) ∙ e)

ok_eq :
    {c d : WotClass} {i j : Init}
    → ◌≡◌ {A = Outcome (WotClass × Init)} (ok (d, i)) (ok (c, j))
    → d ≡ c
ok_eq {c} {d} h = ap (λ r. elim r [ ok p ↦ p.0 | raised x ↦ d ]) h

found_class :
    (key : Text) (cs : Dict String WotClass) (o : Option Json) (unknown : String)
    (args : Option Init) (kwargs : Init) (c : WotClass) (init : Init)
    → AllNamed key cs
    → build_found unknown (class_named cs o) args kwargs ≡ ok (c, init)
    → (s : String) × (o ≡ some (str s)) × (Dict.get key c.constants ≡ some (str s))
found_class key cs none unknown args kwargs c init h e = absurd (ground (arith, e))
found_class key cs (some null) unknown args kwargs c init h e = absurd (ground (arith, e))
found_class key cs (some (bool b)) unknown args kwargs c init h e = absurd (ground (arith, e))
found_class key cs (some (integer n)) unknown args kwargs c init h e = absurd (ground (arith, e))
found_class key cs (some (real r is_integral)) unknown args kwargs c init h e =
    absurd (ground (arith, e))
found_class key cs (some (arr xs)) unknown args kwargs c init h e = absurd (ground (arith, e))
found_class key cs (some (obj fs)) unknown args kwargs c init h e = absurd (ground (arith, e))
found_class key cs (some (str s)) unknown args kwargs c init h e = go (Dict.get s cs) refl e
  where
    built :
        (d : WotClass) (r : Outcome Init)
        → Dict.get s cs ≡ some d
        → with_class d r ≡ ok (c, init)
        → Dict.get s cs ≡ some c
    built d (raised x) q e = absurd (ground (arith, e))
    built d (ok i) q e = q ∙ ap some (ok_eq e)

    go :
        (r : Option WotClass)
        → Dict.get s cs ≡ r
        → build_found unknown (ok r) args kwargs ≡ ok (c, init)
        → (t : String) × (some (str s) ≡ some (str t)) × (Dict.get key c.constants ≡ some (str t))
    go none q e = absurd (ground (arith, e))
    go (some d) q e = (s, refl, named_class key s c cs h (built d (new_wot_dict d args kwargs) q e))

module _ (args : Option Init) (kwargs : Init) (c : WotClass) (init : Init) where
  -- What `SecuritySchemeDict.build` returns has the scheme that its arguments say, which is a string.
  pub security_build-get_attribute :
      security_build args kwargs ≡ ok (c, init)
      → (s : String) × (Dict.get (codes "scheme") (merge_args_kwargs_dict args kwargs)
          ≡ some (str s))
        × (get_attribute c init (codes "scheme") ≡ ok (str s))
  unfolding security_build Dict.get get_attribute
  security_build-get_attribute e =
      let (s, said, named) =
        found_class (codes "scheme") security_classes
          (Dict.get (codes "scheme") (merge_args_kwargs_dict args kwargs)) "Unknown scheme" args
          kwargs c init (refl, (refl, (refl, (refl, (refl, (refl, (refl, (refl, (refl, tt)))))))))
          e in
      (s, said, rw named refl)

  -- What `DataSchemaDict.build` returns has the type that its arguments say, which is a string.
  pub schema_build-get_attribute :
      schema_build args kwargs ≡ ok (c, init)
      → (s : String) × (Dict.get (codes "type") (merge_args_kwargs_dict args kwargs) ≡ some (str s))
        × (get_attribute c init (codes "type") ≡ ok (str s))
  unfolding schema_build Dict.get get_attribute
  schema_build-get_attribute e =
      let (s, said, named) =
        found_class (codes "type") schema_classes
          (Dict.get (codes "type") (merge_args_kwargs_dict args kwargs)) "Unknown type" args kwargs
          c init (refl, (refl, (refl, (refl, (refl, (refl, (refl, tt))))))) e in
      (s, said, rw named refl)
