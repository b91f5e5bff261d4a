-- ===== src/Rpc/Keys.antt =====
-- What the searches for a key find in the fields of a message.
use flowcoro.Base.{
  ℕ, ◌≡◌, refl, ◌∙◌, Bool, true, false, not, ◌&&◌, none, some, [], ◌∷◌, ◌++◌, ◌==◌, arith,
}
use flowcoro.Text.{Text, text_eq, lacks, strip_prefix, after, before}
use flowcoro.Rpc.{quote, key, string_field, value_field}

-- A text can be a name in a pattern: it is not empty and begins with no `:`, `,` or quote.
abbrev pub is_name : Text → Bool
is_name [] = false
is_name (n ∷ ns) = not (n == b':') && not (n == b',') && lacks quote (n ∷ ns)

strip_common : (ps qs t : Text) → strip_prefix (ps ++ qs) (ps ++ t) ≡ strip_prefix qs t
unfolding strip_prefix
strip_common [] qs t = refl
strip_common (p ∷ ps) qs t = ground (arith, strip_common ps qs t)

strip_other :
    (n m qs t : Text)
    → lacks quote n ≡ true
    → lacks quote m ≡ true
    → text_eq n m ≡ false
    → strip_prefix (n ++ quote ∷ qs) (m ++ quote ∷ t) ≡ none
unfolding strip_prefix
strip_other [] [] qs t a b e = absurd (cc)
strip_other [] (y ∷ m) qs t a b e = ground (arith, b)
strip_other (x ∷ n) [] qs t a b e = ground (arith, a)
strip_other (x ∷ n) (y ∷ m) qs t a b e = ground (arith, strip_other n m qs t, a, b, e)

-- The end of a value is followed by `,`, that of a name by `:`.
strip_value :
    (n v p r : Text)
    → lacks quote n ≡ true
    → lacks quote v ≡ true
    → strip_prefix (n ++ quote ∷ b':' ∷ p) (v ++ quote ∷ b',' ∷ r) ≡ none
unfolding strip_prefix
strip_value [] [] p r a b = refl
strip_value [] (y ∷ v) p r a b = ground (arith, b)
strip_value (x ∷ n) [] p r a b = ground (arith, a)
strip_value (x ∷ n) (y ∷ v) p r a b = ground (arith, strip_value n v p r, a, b)

strip_colon : (n qs t : Text) → is_name n ≡ true → strip_prefix (n ++ qs) (b':' ∷ t) ≡ none
unfolding strip_prefix
strip_colon [] qs t e = absurd (cc)
strip_colon (x ∷ n) qs t e = ground (arith, e)

strip_comma : (n qs t : Text) → is_name n ≡ true → strip_prefix (n ++ qs) (b',' ∷ t) ≡ none
unfolding strip_prefix
strip_comma [] qs t e = absurd (cc)
strip_comma (x ∷ n) qs t e = ground (arith, e)

pub skip_char :
    (ps t : Text) (c : ℕ) → (quote == c) ≡ false → after (quote ∷ ps) (c ∷ t) ≡ after (quote ∷ ps) t
unfolding after strip_prefix
skip_char ps t c e = rw (e, after) refl

skip_quote :
    (ps t : Text) → strip_prefix ps t ≡ none → after (quote ∷ ps) (quote ∷ t) ≡ after (quote ∷ ps) t
unfolding after strip_prefix
skip_quote ps t e = rw e refl

skip_plain :
    (ps v t : Text) → lacks quote v ≡ true → after (quote ∷ ps) (v ++ t) ≡ after (quote ∷ ps) t
skip_plain ps [] t e = refl
skip_plain ps (c ∷ v) t e =
    skip_char ps (v ++ t) c (ground (arith, e)) ∙ skip_plain ps v t (ground (arith, e))

name_plain : (n : Text) → is_name n ≡ true → lacks quote n ≡ true
name_plain [] e = refl
name_plain (x ∷ n) e = ground (arith, e)

-- The key of another field, up to its `:`.
skip_key :
    (name other p t : Text)
    → is_name name ≡ true
    → is_name other ≡ true
    → text_eq name other ≡ false
    → after (key name p) (key other t) ≡ after (key name p) t
skip_key name other p t a b e =
    let ps = name ++ quote ∷ b':' ∷ p in
    skip_quote ps (other ++ quote ∷ b':' ∷ t)
      (strip_other name other (b':' ∷ p) (b':' ∷ t) (name_plain name a) (name_plain other b) e)
    ∙ skip_plain ps other (quote ∷ b':' ∷ t) (name_plain other b)
    ∙ skip_quote ps (b':' ∷ t) (strip_colon name (quote ∷ b':' ∷ p) t a)
    ∙ skip_char ps t b':' refl

-- A field of another name, and the `,` behind it, are passed over.
pub skip_string_field :
    (name other p value r : Text)
    → is_name name ≡ true
    → is_name other ≡ true
    → text_eq name other ≡ false
    → lacks quote value ≡ true
    → after (key name p) (string_field other value (b',' ∷ r)) ≡ after (key name p) r
skip_string_field name other p value r a b e v =
    let ps = name ++ quote ∷ b':' ∷ p in
    skip_key name other p (quote ∷ value ++ quote ∷ b',' ∷ r) a b e
    ∙ skip_quote ps (value ++ quote ∷ b',' ∷ r) (strip_value name value p r (name_plain name a) v)
    ∙ skip_plain ps value (quote ∷ b',' ∷ r) v
    ∙ skip_quote ps (b',' ∷ r) (strip_comma name (quote ∷ b':' ∷ p) r a)
    ∙ skip_char ps r b',' refl

pub skip_value_field :
    (name other p value r : Text)
    → is_name name ≡ true
    → is_name other ≡ true
    → text_eq name other ≡ false
    → lacks quote value ≡ true
    → after (key name p) (value_field other value (b',' ∷ r)) ≡ after (key name p) r
skip_value_field name other p value r a b e v =
    let ps = name ++ quote ∷ b':' ∷ p in
    skip_key name other p (value ++ b',' ∷ r) a b e
    ∙ skip_plain ps value (b',' ∷ r) v
    ∙ skip_char ps r b',' refl

-- The field that is looked for.
pub found_key :
    (name p t x : Text) → strip_prefix p t ≡ some x → after (key name p) (key name t) ≡ some x
unfolding after strip_prefix
found_key name p t x e =
    hit (name ++ quote ∷ b':' ∷ p) (name ++ quote ∷ b':' ∷ t)
      (strip_common name (quote ∷ b':' ∷ p) (quote ∷ b':' ∷ t) ∙ both ∙ e)
  where
    hit : (ps ys : Text) → strip_prefix ps ys ≡ some x → after (quote ∷ ps) (quote ∷ ys) ≡ some x
    hit ps ys h = rw h refl

    both : strip_prefix (quote ∷ b':' ∷ p) (quote ∷ b':' ∷ t) ≡ strip_prefix p t
    both = refl

-- A value ends at the `,"` behind it.
pub before_field :
    (v r : Text)
    → lacks quote v ≡ true
    → before (b',' ∷ quote ∷ []) (v ++ b',' ∷ quote ∷ r) ≡ some v
unfolding before strip_prefix
before_field [] r e = refl
before_field (c ∷ []) r e = ground (arith, e)
before_field (c ∷ d ∷ v) r e = ground (arith, e, before_field (d ∷ v) r)
