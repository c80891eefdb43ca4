-- ===== src/Strconv/Fields.antt =====
-- strings.Fields on words with a space between.
use rediver_sdk_go.Prelude.{
  ◌≡◌, refl, sym, ap, ◌∙◌, false, none, some, List, [], ◌∷◌, String, Char, ◌<>◌,
}
use text.Mathlib.TextLemmas.{cons-append, nil-append, append-nil}
use rediver_sdk_go.Strconv.{is_space, fields, fields_from, push_field, end_field}

-- No character is a space.
abbrev pub HasNoSpace : String → Type 0
HasNoSpace String.[] = Unit
HasNoSpace (String.◌∷◌ c s) = (is_space c ≡ false) × HasNoSpace s

-- There is a character, and none is a space.
abbrev pub IsWord : String → Type 0
IsWord String.[] = ⊥
IsWord (String.◌∷◌ c s) = HasNoSpace (String.◌∷◌ c s)

-- A word in front of what was read.
word-fields_from :
    (c : Char) (w t : String) (done : List String)
    → HasNoSpace (String.◌∷◌ c w)
    → fields_from t ≡ (none, done)
    → fields_from (String.◌∷◌ c w <> t) ≡ (some (String.◌∷◌ c w), done)
unfolding fields_from push_field
word-fields_from c String.[] t done (h, _) e =
    rw (cons-append c String.[] t, nil-append t, fields_from, h, e) refl
word-fields_from c (String.◌∷◌ d w) t done (h, k) e =
    rw (cons-append c (String.◌∷◌ d w) t, fields_from, h, word-fields_from d w t done k e) refl

tab-fields_from :
    (d : Char) (b : String)
    → HasNoSpace (String.◌∷◌ d b)
    → fields_from ("\t" <> String.◌∷◌ d b) ≡ (none, String.◌∷◌ d b ∷ [])
unfolding fields_from end_field is_space
tab-fields_from d b k =
    let w = word-fields_from d b "" [] k refl in
    let v : fields_from (String.◌∷◌ d b) ≡ (some (String.◌∷◌ d b), []) =
      ap fields_from (sym (append-nil (String.◌∷◌ d b))) ∙ w in
    ap fields_from (
      cons-append "\t" String.[] (String.◌∷◌ d b)
      ∙ ap (λ t. String.◌∷◌ "\t" t) (nil-append (String.◌∷◌ d b)))
    ∙ ap (λ r. (none, end_field r)) v

-- Two words with a tab between are the two fields.
pub fields-two_words : (a b : String) → IsWord a → IsWord b → fields (a <> "\t" <> b) ≡ a ∷ b ∷ []
unfolding fields fields_from end_field
fields-two_words String.[] b h k = absurd h
fields-two_words (String.◌∷◌ c a) String.[] h k = absurd k
fields-two_words (String.◌∷◌ c a) (String.◌∷◌ d b) h k =
    ap end_field (
      word-fields_from c a ("\t" <> String.◌∷◌ d b) (String.◌∷◌ d b ∷ []) h (tab-fields_from d b k))
