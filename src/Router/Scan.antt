-- ===== src/Router/Scan.antt =====
-- The scan of `modelFromBody`: what it reads, and where it gives up.
use cpa_plugin_commandcode.Base.{
  ℕ, ◌≤◌, Bytes, codes, true, false, some, [], ◌∷◌, ◌++◌, ◌==◌, if◌then◌else◌, has_prefix, contains,
  All, length, append_assoc, append-nil, ◌≡◌, ◌≢◌, refl, arith, inl, inr, ◌⊎◌, sym, ap, ◌∙◌,
}
use cpa_plugin_commandcode.Router.{
  marker, after_marker, is_separator, skip_separators, read_string, read_quoted, model_from_body,
}

-- A model name in a JSON string, with its quotes and backslashes escaped.
unfoldable pub escape : Bytes → Bytes
escape [] = []
escape (c ∷ s) =
    let rest = escape s in
    if c == b'"' then b'\\' ∷ b'"' ∷ rest else if c == b'\\' then b'\\' ∷ b'\\' ∷ rest else c ∷ rest

-- A test for a prefix reads no more bytes than the prefix has.
has_prefix-long : (s t p : Bytes) → length p ≤ length s → has_prefix (s ++ t) p ≡ has_prefix s p
unfolding has_prefix
has_prefix-long s t [] h = refl
has_prefix-long [] t (y ∷ p) h = absurd (omega arith)
has_prefix-long (x ∷ s) t (y ∷ p) h = ground (arith, has_prefix-long s t p)

-- The marker without its closing quote.
abbrev pub marker_front : Bytes
marker_front = codes "\"model"

-- Before `pre` ends no marker begins.
abbrev pub FirstMarkerAfter : Bytes → Type 0
FirstMarkerAfter pre = contains (pre ++ marker_front) marker ≡ false

length-front : (pre : Bytes) → 6 ≤ length (pre ++ marker_front)
length-front [] = omega arith
length-front (x ∷ pre) = omega (arith, length-front pre)

no_marker_here :
    (x : ℕ) (pre rest : Bytes)
    → has_prefix (x ∷ (pre ++ marker_front)) marker ≡ false
    → has_prefix (x ∷ (pre ++ (marker ++ rest))) marker ≡ false
no_marker_here x pre rest h =
    let longer = x ∷ (pre ++ marker_front) in
    ap (λ s. has_prefix s marker) (sym (append_assoc (x ∷ pre) marker_front (b'"' ∷ rest)))
    ∙ has_prefix-long longer (b'"' ∷ rest) marker (omega (arith, length-front pre))
    ∙ h

after_marker-step :
    (x : ℕ) (s : Bytes) → has_prefix (x ∷ s) marker ≡ false → after_marker (x ∷ s) ≡ after_marker s
unfolding after_marker
after_marker-step x s h = rw h

contains-cons :
    (x : ℕ) (s p : Bytes)
    → contains (x ∷ s) p ≡ false
    → (has_prefix (x ∷ s) p ≡ false) × (contains s p ≡ false)
unfolding contains
contains-cons x s p h = ground arith

after_marker-first :
    (pre rest : Bytes) → FirstMarkerAfter pre → after_marker (pre ++ (marker ++ rest)) ≡ some rest
after_marker-first [] rest h = unfold after_marker in refl
after_marker-first (x ∷ pre) rest h =
    let (here, later) = contains-cons x (pre ++ marker_front) marker h in
    after_marker-step x (pre ++ (marker ++ rest)) (no_marker_here x pre rest here)
    ∙ after_marker-first pre rest later

skip_separators-append :
    (gap : Bytes) (c : ℕ) (rest : Bytes)
    → All (λ b. is_separator b ≡ true) gap
    → is_separator c ≡ false
    → skip_separators (gap ++ c ∷ rest) ≡ c ∷ rest
unfolding skip_separators
skip_separators-append [] c rest h k = rw k
skip_separators-append (x ∷ gap) c rest (e, h) k = rw e (skip_separators-append gap c rest h k)

read_string-quote : (rest b : Bytes) → read_string (b'"' ∷ rest) b ≡ b
unfolding read_string
read_string-quote [] b = refl
read_string-quote (x ∷ rest) b = refl

read_string-escaped :
    (d : ℕ) (rest b : Bytes) → read_string (b'\\' ∷ d ∷ rest) b ≡ read_string rest (b ++ d ∷ [])
unfolding read_string
read_string-escaped d rest b = refl

-- One round of the loop on a byte that is neither a quote nor a backslash, with input left.
read_string-plain :
    (c : ℕ) (s b : Bytes)
    → (c == b'\\') ≡ false
    → (c == b'"') ≡ false
    → s ≢ []
    → read_string (c ∷ s) b ≡ read_string s (b ++ c ∷ [])
unfolding read_string
read_string-plain c [] b h k l = absurd (l refl)
read_string-plain c (d ∷ s) b h k l = ground arith

append-ne-nil : (s : Bytes) (c : ℕ) (t : Bytes) → s ++ c ∷ t ≢ []
append-ne-nil [] c t = cc
append-ne-nil (x ∷ s) c t = cc

-- The two ways in which `escape` writes a byte.
escape-cons :
    (c : ℕ) (v : Bytes)
    → (escape (c ∷ v) ≡ b'\\' ∷ c ∷ escape v)
      ⊎ (((c == b'\\') ≡ false) × ((c == b'"') ≡ false) × (escape (c ∷ v) ≡ c ∷ escape v))
unfolding escape
escape-cons c v = ground arith

read_string-escape : (v rest b : Bytes) → read_string (escape v ++ b'"' ∷ rest) b ≡ b ++ v
read_string-escape [] rest b = unfold escape in read_string-quote rest b ∙ sym (append-nil b)
read_string-escape (c ∷ v) rest b =
    let tail = escape v ++ b'"' ∷ rest in
    let later : read_string tail (b ++ c ∷ []) ≡ b ++ c ∷ v =
      read_string-escape v rest (b ++ c ∷ []) ∙ append_assoc b (c ∷ []) v in
    elim (escape-cons c v) [
      | inl e ↦ rw e (read_string-escaped c tail b ∙ later)
      | inr (h, k, e) ↦
          rw e (read_string-plain c tail b h k (append-ne-nil (escape v) b'"' rest) ∙ later)
    ]

model_from_body-read :
    (pre gap : Bytes) (c : ℕ) (rest : Bytes)
    → FirstMarkerAfter pre
    → All (λ b. is_separator b ≡ true) gap
    → is_separator c ≡ false
    → model_from_body (pre ++ (marker ++ (gap ++ c ∷ rest))) ≡ read_quoted (c ∷ rest)
unfolding model_from_body
model_from_body-read pre gap c rest first seps h =
    rw (after_marker-first pre (gap ++ c ∷ rest) first, model_from_body)
      (ap read_quoted (skip_separators-append gap c rest seps h))

-- `modelFromBody` reads back any model name: after the first marker, separators and a quote comes
-- the name with its quotes and backslashes escaped, and a closing quote.
pub model_from_body-escape :
    (pre gap v rest : Bytes)
    → FirstMarkerAfter pre
    → All (λ b. is_separator b ≡ true) gap
    → model_from_body (pre ++ (marker ++ (gap ++ b'"' ∷ (escape v ++ b'"' ∷ rest)))) ≡ v
unfolding read_quoted
model_from_body-escape pre gap v rest first seps =
    model_from_body-read pre gap b'"' (escape v ++ b'"' ∷ rest) first seps
      (unfold is_separator in refl)
    ∙ read_string-escape v rest []

-- Where the first marker is followed by anything but separators and a quote, the scan gives up:
-- the result is "", also if a `"model"` field comes later.
pub model_from_body-unquoted :
    (pre gap : Bytes) (c : ℕ) (rest : Bytes)
    → FirstMarkerAfter pre
    → All (λ b. is_separator b ≡ true) gap
    → is_separator c ≡ false
    → (c == b'"') ≡ false
    → model_from_body (pre ++ (marker ++ (gap ++ c ∷ rest))) ≡ []
unfolding read_quoted
model_from_body-unquoted pre gap c rest first seps h k =
    model_from_body-read pre gap c rest first seps h ∙ rw k
