-- ===== src/Importer/Profile/Order.antt =====
-- The order of the directories that the scan of the profiles finds.
use mathlib.Core.Path.{subst}
use Prim.Native.Char.{Char, code}
use Prim.Native.String.append
use Prim.Native.String.{◌++◌ as text_append}
use text.Mathlib.TextEquality.{Char-path}
use roamux.Base.{
  ℕ, String, ◌≡◌, refl, sym, ap, ◌∙◌, inl, inr, true, Option, some, arith, ◌==◌, ==_iff, ==_refl,
  Bool-cases, Option-cases, codes, ℤ, pos, ltb_ℤ, StrictWeak-irreflexive, ltb_ℤ-StrictWeak, lex_ltb,
}
use roamux.Importer.Profile.{
  Files, ScanKey, strip_prefix, key_less, numbered, parsed_number, profile_scan_key, scan_less,
}

code_same : (c d : Char) → (code c == code d) ≡ true → c ≡ d
code_same c d h = Char-path c d ((==_iff (code c) (code d)).0 h)

same_text : (s t : String) → ◌≡◌ {A = Option String} (some s) (some t) → s ≡ t
same_text s t h = cc

strip_prefix_sound : (p s rest : String) → strip_prefix p s ≡ some rest → s ≡ text_append p rest
unfolding strip_prefix
strip_prefix_sound String.[] s rest h = same_text s rest h ∙ sym (append.nil rest)
strip_prefix_sound (String.◌∷◌ c p) String.[] rest h = absurd (ground (arith, h))
strip_prefix_sound (String.◌∷◌ c p) (String.◌∷◌ d s) rest h = elim (Bool-cases (code c == code d)) [
  | inr e ↦ absurd (ground (arith, h, e))
  | inl e ↦
      let tails = strip_prefix_sound p s rest (ground (arith, h, e)) in
      let heads = code_same c d e in
      (λ i. String.◌∷◌ (sym heads i) (tails i)) ∙ sym (append.cons c p rest)
]

strip_prefix_complete : (p rest : String) → strip_prefix p (text_append p rest) ≡ some rest
unfolding strip_prefix
strip_prefix_complete String.[] rest = ap some (append.nil rest)
strip_prefix_complete (String.◌∷◌ c p) rest =
    subst (λ t. strip_prefix (String.◌∷◌ c p) t ≡ some rest) (sym (append.cons c p rest))
      (ground (arith, strip_prefix_complete p rest, ==_refl (code c)))

module _ (files : Files) where
  abbrev pub name_of : files.FilePath → String
  name_of dir = files.as_utf8 (files.base_name dir)

  -- The name is that of a profile with a number.
  pub record HasNumber (dir : files.FilePath) (n : ℤ) : Type 0 where
    pub digits : String
    pub named : name_of dir ≡ text_append "Profile " digits
    pub reads : files.string_to_int64 digits ≡ some n

  -- Of two directories the one that is tried first: by their numbers, a number before none, and by
  -- their names where that does not tell them apart.
  pub data Precedes (a b : files.FilePath) : Type 0 where
    lower_number : (n m : ℤ) → HasNumber a n → HasNumber b m → ltb_ℤ n m ≡ true → Precedes a b
    same_number :
        (n : ℤ)
        → HasNumber a n
        → HasNumber b n
        → lex_ltb (codes (name_of a)) (codes (name_of b)) ≡ true
        → Precedes a b
    number_first : (n : ℤ) → HasNumber a n → ((m : ℤ) → ¬ HasNumber b m) → Precedes a b
    no_numbers :
        ((n : ℤ) → ¬ HasNumber a n)
        → ((n : ℤ) → ¬ HasNumber b n)
        → lex_ltb (codes (name_of a)) (codes (name_of b)) ≡ true
        → Precedes a b

  abbrev key : ℕ → ℤ → files.FilePath → ScanKey
  key rank n dir = record { rank = rank; number = n; name = name_of dir }

  profile_scan_key-number :
      (dir : files.FilePath) (n : ℤ) → HasNumber dir n → profile_scan_key files dir ≡ key 0 n dir
  unfolding profile_scan_key
  profile_scan_key-number dir n h =
      let stripped : strip_prefix "Profile " (name_of dir) ≡ some h.digits =
        subst (λ t. strip_prefix "Profile " t ≡ some h.digits) (sym h.named)
          (strip_prefix_complete "Profile " h.digits) in
      ap (λ o. numbered (name_of dir) (parsed_number files o)) stripped
      ∙ ap (numbered (name_of dir)) h.reads

  profile_scan_key-no_number :
      (dir : files.FilePath)
      → ((n : ℤ) → ¬ HasNumber dir n)
      → profile_scan_key files dir ≡ key 1 (pos 0) dir
  unfolding profile_scan_key
  profile_scan_key-no_number dir h = elim (Option-cases (strip_prefix "Profile " (name_of dir))) [
    | inl e ↦ ap (λ o. numbered (name_of dir) (parsed_number files o)) e
    | inr (digits, e) ↦ elim (Option-cases (files.string_to_int64 digits)) [
      | inl k ↦
          ap (λ o. numbered (name_of dir) (parsed_number files o)) e ∙ ap (numbered (name_of dir)) k
      | inr (n, k) ↦ absurd (
          h n (record {
            digits = digits;
            named = strip_prefix_sound "Profile " (name_of dir) digits e;
            reads = k;
          }))
    ]
  ]

  scan_less-keys :
      (a b : files.FilePath) (j k : ScanKey)
      → profile_scan_key files a ≡ j
      → profile_scan_key files b ≡ k
      → key_less j k ≡ true
      → scan_less files a b ≡ true
  scan_less-keys a b j k p q h = (λ i. key_less (p i) (q i)) ∙ h

  pub Precedes-scan_less : (a b : files.FilePath) → Precedes a b → scan_less files a b ≡ true
  Precedes-scan_less a b (lower_number n m u v h) =
      scan_less-keys a b (key 0 n a) (key 0 m b) (profile_scan_key-number a n u)
        (profile_scan_key-number b m v) (ground (arith, h))
  Precedes-scan_less a b (same_number n u v h) =
      scan_less-keys a b (key 0 n a) (key 0 n b) (profile_scan_key-number a n u)
        (profile_scan_key-number b n v)
        (ground (arith, h, StrictWeak-irreflexive ltb_ℤ ltb_ℤ-StrictWeak n))
  Precedes-scan_less a b (number_first n u v) =
      scan_less-keys a b (key 0 n a) (key 1 (pos 0) b) (profile_scan_key-number a n u)
        (profile_scan_key-no_number b v) refl
  Precedes-scan_less a b (no_numbers u v h) =
      scan_less-keys a b (key 1 (pos 0) a) (key 1 (pos 0) b) (profile_scan_key-no_number a u)
        (profile_scan_key-no_number b v) (ground (arith, h))
