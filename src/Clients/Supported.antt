-- ===== src/Clients/Supported.antt =====
-- A client supports an interaction exactly when it finds a form of it.
use wotpy.Prelude.{
  String, ◌≡◌, ◌∙◌, refl, sym, ap, Bool, true, false, ◌&&◌, ◌||◌, Option, none, some, List, [], ◌∷◌,
  string_eq, any, keep, find?, arith, Bool-cases, inl, inr,
}
use wotpy.Clients.{
  FormDict, Urls, resolve_uri, scheme_in, is_scheme_form, first_form, pick_form, find_href, or_else,
  href_of, is_some, pick_href, is_filled, is_supported, has_op, is_op_form,
}

is_filled-keep : (p : FormDict → Bool) (fs : List FormDict) → is_filled (keep p fs) ≡ any p fs
is_filled-keep p [] = refl
is_filled-keep p (f ∷ fs) = elim (Bool-cases (p f)) [
  | inl yes_p ↦ rw yes_p refl
  | inr no_p ↦ rw no_p (is_filled-keep p fs)
]

any-or :
    (p q r : FormDict → Bool) (fs : List FormDict)
    → ((f : FormDict) → p f ≡ (q f || r f))
    → any p fs ≡ (any q fs || any r fs)
any-or p q r [] h = refl
any-or p q r (f ∷ fs) h = ground (arith, h f, any-or p q r fs h)

any_none : (fs : List FormDict) → any (λ f. false) fs ≡ false
any_none [] = refl
any_none (f ∷ fs) = any_none fs

is_some-first_form :
    (q r : FormDict → Bool) (fs : List FormDict) (rest : Option FormDict)
    → is_some (first_form (keep r (keep q fs)) rest) ≡ (any (λ f. q f && r f) fs || is_some rest)
is_some-first_form q r [] rest = refl
is_some-first_form q r (f ∷ fs) rest = elim (Bool-cases (q f)) [
  | inl yes_q ↦ rw yes_q (elim (Bool-cases (r f)) [
    | inl yes_r ↦ rw yes_r refl
    | inr no_r ↦ rw no_r (is_some-first_form q r fs rest)
  ])
  | inr no_q ↦ rw no_q (is_some-first_form q r fs rest)
]

is_some-href_of :
    (q : FormDict → Bool) (fs : List FormDict) → is_some (href_of (find? q fs)) ≡ any q fs
is_some-href_of q [] = refl
is_some-href_of q (f ∷ fs) = elim (Bool-cases (q f)) [
  | inl yes_q ↦ rw yes_q refl
  | inr no_q ↦ rw no_q (is_some-href_of q fs)
]

any_and_true :
    (q r : FormDict → Bool) (fs : List FormDict)
    → ((f : FormDict) → r f ≡ true)
    → any (λ f. q f && r f) fs ≡ any q fs
any_and_true q r [] h = refl
any_and_true q r (f ∷ fs) h = ground (arith, h f, any_and_true q r fs h)

is_some-or_else : (a b : Option String) → is_some (or_else a b) ≡ (is_some a || is_some b)
is_some-or_else none b = refl
is_some-or_else (some href) b = refl

module _ (urls : Urls) where
  is_scheme_form-cons :
      (base : Option String) (scheme : String) (schemes : List String) (f : FormDict)
      → is_scheme_form urls base (scheme ∷ schemes) f
        ≡ (is_scheme_form urls base (scheme ∷ []) f || is_scheme_form urls base schemes f)
  unfolding is_scheme_form
  is_scheme_form-cons base scheme schemes f = go (resolve_uri urls base f)
    where
      go :
          (o : Option String)
          → scheme_in urls (scheme ∷ schemes) o
            ≡ (scheme_in urls (scheme ∷ []) o || scheme_in urls schemes o)
      go none = refl
      go (some url) = ground arith

  -- The form has one of the schemes, and passes `r`.
  abbrev pub fits : Option String → (FormDict → Bool) → List String → FormDict → Bool
  fits base r schemes f = is_scheme_form urls base schemes f && r f

  any-fits_none :
      (base : Option String) (r : FormDict → Bool) (fs : List FormDict)
      → any (fits base r []) fs ≡ false
  unfolding is_scheme_form
  any-fits_none base r [] = refl
  any-fits_none base r (f ∷ fs) = ground (arith, empty f, any-fits_none base r fs)
    where
      go : (o : Option String) → scheme_in urls [] o ≡ false
      go none = refl
      go (some url) = ground arith

      empty : (g : FormDict) → is_scheme_form urls base [] g ≡ false
      empty g = go (resolve_uri urls base g)

  any-fits :
      (base : Option String) (r : FormDict → Bool) (fs : List FormDict) (scheme : String)
      (schemes : List String)
      → any (fits base r (scheme ∷ schemes)) fs
        ≡ (any (fits base r (scheme ∷ [])) fs || any (fits base r schemes) fs)
  any-fits base r fs scheme schemes =
      any-or (fits base r (scheme ∷ schemes)) (fits base r (scheme ∷ [])) (fits base r schemes) fs
        (λ f. ground (arith, is_scheme_form-cons base scheme schemes f))

  is_some-pick_form :
      (base : Option String) (fs : List FormDict) (op : Option String) (schemes : List String)
      → is_some (pick_form urls base fs op schemes) ≡ any (fits base (has_op op) schemes) fs
  unfolding pick_form
  is_some-pick_form base fs op [] = sym (any-fits_none base (has_op op) fs)
  is_some-pick_form base fs op (scheme ∷ schemes) =
      is_some-first_form (is_scheme_form urls base (scheme ∷ [])) (has_op op) fs
        (pick_form urls base fs op schemes)
      ∙ ap (λ b. any (fits base (has_op op) (scheme ∷ [])) fs || b)
          (is_some-pick_form base fs op schemes)
      ∙ sym (any-fits base (has_op op) fs scheme schemes)

  or_swap : (a b : Bool) → (a || b) ≡ (b || a)
  or_swap true true = refl
  or_swap true false = refl
  or_swap false true = refl
  or_swap false false = refl

  is_some-pick_href :
      (secure plain : String) (base : Option String) (fs : List FormDict) (op : Option String)
      → is_some (pick_href urls secure plain base fs op)
        ≡ any (fits base (is_op_form op) (plain ∷ secure ∷ [])) fs
  unfolding pick_href
  is_some-pick_href secure plain base fs op =
      is_some-or_else (find_href urls base fs op secure) (find_href urls base fs op plain)
      ∙ rw
          (
            is_some-href_of (fits base (is_op_form op) (secure ∷ [])) fs,
            is_some-href_of (fits base (is_op_form op) (plain ∷ [])) fs,
          )
          (or_swap (any (fits base (is_op_form op) (secure ∷ [])) fs)
            (any (fits base (is_op_form op) (plain ∷ [])) fs))
      ∙ sym (any-fits base (is_op_form op) fs plain (secure ∷ []))

  -- For any forms, base and operation (or none), a client finds a form, be it that of the first scheme,
  -- as for WebSockets, or the href of the secure scheme before the plain one, as for HTTP, CoAP and
  -- MQTT, exactly when some form has both one of the schemes and the operation. The test whether the
  -- client supports an interaction looks at the schemes only: it is true exactly when the client finds
  -- a form for no operation.
  pub is_supported_lem :
      (base : Option String) (fs : List FormDict) (op : Option String) (schemes : List String)
      (secure plain : String)
      → (is_some (pick_form urls base fs op schemes) ≡ any (fits base (has_op op) schemes) fs)
        × (is_some (pick_href urls secure plain base fs op)
            ≡ any (fits base (is_op_form op) (plain ∷ secure ∷ [])) fs)
        × (is_supported urls schemes base fs ≡ is_some (pick_form urls base fs none schemes))
        × (is_supported urls (plain ∷ secure ∷ []) base fs
            ≡ is_some (pick_href urls secure plain base fs none))
  unfolding is_supported
  is_supported_lem base fs op schemes secure plain = (
    is_some-pick_form base fs op schemes,
    is_some-pick_href secure plain base fs op,
    is_filled-keep (is_scheme_form urls base schemes) fs
        ∙ sym (any_and_true (is_scheme_form urls base schemes) (has_op none) fs (λ f. refl))
        ∙ sym (is_some-pick_form base fs none schemes),
    is_filled-keep (is_scheme_form urls base (plain ∷ secure ∷ [])) fs
        ∙ sym (
            any_and_true (is_scheme_form urls base (plain ∷ secure ∷ [])) (is_op_form none) fs
              (λ f. refl))
        ∙ sym (is_some-pick_href secure plain base fs none),
  )
