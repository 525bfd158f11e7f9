-- ===== src/Tests/Picking.antt =====
-- Forms that a client picks from.
use wotpy.Prelude.{◌≡◌, some, none, List, [], ◌∷◌, ◌==◌, string_eq, if◌then◌else◌, any}
use wotpy.Thing.{one}
use wotpy.Clients.{FormDict, Urls, is_supported, pick_form, pick_href, is_some, has_op, is_op_form}
use wotpy.Clients.Supported.{is_supported_lem, fits}

-- Two hrefs and their schemes
abbrev two_urls : Urls
two_urls = record {
  scheme =
      λ url. if url == "https://a/p" then "https" else if url == "coap://a/p" then "coap" else "";
  urljoin = λ base href. "https://a/p";
}

abbrev two_forms : List FormDict
two_forms =
    (record { href = "coap://a/p"; op = one "readproperty" })
    ∷ (record { href = "p"; op = one "readproperty" })
    ∷ []

-- A form that only reads, and a write
is_supported_lem_example :
    (is_some (pick_form two_urls (some "https://a") two_forms (some "writeproperty") ("https" ∷ []))
      ≡ any
          (fits two_urls (some "https://a") (has_op (some "writeproperty")) ("https" ∷ []))
          two_forms)
    × (is_some
          (pick_href two_urls "https" "http" (some "https://a") two_forms (some "writeproperty"))
        ≡ any
            (fits two_urls
              (some "https://a")
              (is_op_form (some "writeproperty"))
              ("http" ∷ "https" ∷ []))
            two_forms)
    × (is_supported two_urls ("https" ∷ []) (some "https://a") two_forms
        ≡ is_some (pick_form two_urls (some "https://a") two_forms none ("https" ∷ [])))
    × (is_supported two_urls ("http" ∷ "https" ∷ []) (some "https://a") two_forms
        ≡ is_some (pick_href two_urls "https" "http" (some "https://a") two_forms none))
is_supported_lem_example =
    is_supported_lem two_urls (some "https://a") two_forms (some "writeproperty") ("https" ∷ [])
      "https" "http"
