-- ===== src/Proto/Escape.antt =====
-- proto.c: strings on a line of the protocol, proto_escape() and proto_unescape().
use csup.Prelude.{
  ℕ, zero, suc, ◌<◌, ◌≡◌, refl, ◌∙◌, ap, arith, Bool, true, false, ◌||◌, ◌==◌, if◌then◌else◌, Bytes,
  [], ◌∷◌, ◌++◌, length, All, Bool-cases, inl, inr, sym, ==_iff,
}

abbrev pub space : ℕ
space = 32

abbrev pub tab : ℕ
tab = 9

abbrev pub newline : ℕ
newline = 10

abbrev pub return : ℕ
return = 13

abbrev pub backslash : ℕ
backslash = 92

-- A byte of the string " \t\r\n\\".
abbrev pub is_special : ℕ → Bool
is_special c = c == space || (c == tab || (c == return || (c == newline || c == backslash)))

-- strcspn(): what stands before the first special byte, and what begins with it.
abbrev pub plain_part : Bytes → Bytes
plain_part [] = []
plain_part (c ∷ s) = if is_special c then [] else c ∷ plain_part s

abbrev pub special_part : Bytes → Bytes
special_part [] = []
special_part (c ∷ s) = if is_special c then c ∷ s else special_part s

-- What is written for a special byte.
abbrev pub escaped : ℕ → Bytes
escaped c =
    if c == space
    then backslash ∷ b'_' ∷ []
    else if c == tab
    then backslash ∷ b't' ∷ []
    else if c == return
    then backslash ∷ b'r' ∷ []
    else if c == newline
    then backslash ∷ b'n' ∷ []
    else backslash ∷ backslash ∷ []

-- The loop, on fuel: each round passes a special byte, or ends at the end of the string.
unfoldable pub escape_loop : ℕ → Bytes → Bytes
escape_loop zero s = []
escape_loop (suc f) s =
    plain_part s ++ elim (special_part s) [ [] ↦ [] | c ∷ t ↦ escaped c ++ escape_loop f t ]

-- What proto_escape() writes into the stream.
unfoldable pub proto_escape : Bytes → Bytes
unfolding escape_loop
proto_escape s = escape_loop (suc (length s)) s

abbrev pub unescaped : ℕ → ℕ
unescaped c =
    if c == b'_'
    then space
    else if c == b't'
    then tab
    else if c == b'r'
    then return
    else if c == b'n'
    then newline
    else c

-- A backslash at the end is dropped.
unfoldable pub proto_unescape : Bytes → Bytes
proto_unescape [] = []
proto_unescape (c ∷ []) = if c == backslash then [] else c ∷ []
proto_unescape (c ∷ d ∷ t) =
    let plain = proto_unescape (d ∷ t) in
    let behind = proto_unescape t in if c == backslash then unescaped d ∷ behind else c ∷ plain

-- proto_escape() byte by byte.
abbrev pub escape_byte : ℕ → Bytes
escape_byte c = if is_special c then escaped c else c ∷ []

abbrev pub escape_bytes : Bytes → Bytes
escape_bytes [] = []
escape_bytes (c ∷ s) = escape_byte c ++ escape_bytes s

escape_loop-bytes : (f : ℕ) (s : Bytes) → length s < f → escape_loop f s ≡ escape_bytes s
unfolding escape_loop
escape_loop-bytes zero s h = absurd (omega arith)
escape_loop-bytes (suc f) [] h = refl
escape_loop-bytes (suc f) (c ∷ s) h = elim (Bool-cases (is_special c)) [
  | inl y ↦ rw y (ap (λ t. escaped c ++ t) (escape_loop-bytes f s (omega (arith, h))))
  | inr n ↦ rw n (ap (λ t. c ∷ t) (escape_loop-bytes (suc f) s (omega (arith, h))))
]

-- The loop has enough fuel, and does the same to every byte.
pub proto_escape-bytes : (s : Bytes) → proto_escape s ≡ escape_bytes s
unfolding proto_escape
proto_escape-bytes s = escape_loop-bytes (suc (length s)) s (omega arith)

-- No byte is a space.
abbrev pub HasNoSpace : ℕ → Type 0
HasNoSpace c = (c == space) ≡ false

-- A special byte becomes a backslash and a letter that stands for it.
pub escaped_lem :
    (c : ℕ)
    → is_special c ≡ true
    → (d : ℕ) × (escaped c ≡ backslash ∷ d ∷ []) × HasNoSpace d × (unescaped d ≡ c)
escaped_lem c h = elim (Bool-cases (c == space)) [
  | inl y ↦ (b'_', rw y refl, refl, sym ((==_iff c space).0 y))
  | inr n ↦ elim (Bool-cases (c == tab)) [
    | inl y ↦ (b't', rw (n, y) refl, refl, sym ((==_iff c tab).0 y))
    | inr n1 ↦ elim (Bool-cases (c == return)) [
      | inl y ↦ (b'r', rw (n, n1, y) refl, refl, sym ((==_iff c return).0 y))
      | inr n2 ↦ elim (Bool-cases (c == newline)) [
        | inl y ↦ (b'n', rw (n, n1, n2, y) refl, refl, sym ((==_iff c newline).0 y))
        | inr n3 ↦
            let e : c ≡ backslash = ground arith in
            (backslash, rw (n, n1, n2, n3) refl, refl, sym e)
      ]
    ]
  ]
]

escape_byte-HasNoSpace : (c : ℕ) → All HasNoSpace (escape_byte c)
escape_byte-HasNoSpace c = elim (Bool-cases (is_special c)) [
  | inl y ↦ let (d, e, k, u) = escaped_lem c y in rw (y, e) (refl, (k, tt))
  | inr n ↦ rw n (ground arith, tt)
]

All-append : (P : ℕ → Type 0) (xs ys : Bytes) → All P xs → All P ys → All P (xs ++ ys)
All-append P [] ys h k = k
All-append P (x ∷ xs) ys h k = (h.0, All-append P xs ys h.1 k)

-- No space is written.
pub proto_escape-HasNoSpace : (s : Bytes) → All HasNoSpace (proto_escape s)
proto_escape-HasNoSpace s = rw (proto_escape-bytes s) (go s)
  where
    go : (t : Bytes) → All HasNoSpace (escape_bytes t)
    go [] = tt
    go (c ∷ t) =
        All-append HasNoSpace (escape_byte c) (escape_bytes t) (escape_byte-HasNoSpace c) (go t)

pub unescape-plain :
    (c : ℕ) (s : Bytes) → (c == backslash) ≡ false → proto_unescape (c ∷ s) ≡ c ∷ proto_unescape s
unfolding proto_unescape
unescape-plain c [] h = rw h refl
unescape-plain c (d ∷ t) h = rw (proto_unescape, h) refl

unescape-bytes : (s : Bytes) → proto_unescape (escape_bytes s) ≡ s
unfolding proto_unescape
unescape-bytes [] = refl
unescape-bytes (c ∷ s) = elim (Bool-cases (is_special c)) [
  | inl y ↦ let (d, e, k, u) = escaped_lem c y in rw (y, e, u) (ap (λ t. c ∷ t) (unescape-bytes s))
  | inr n ↦
      rw n (unescape-plain c (escape_bytes s) (ground arith) ∙ ap (λ t. c ∷ t) (unescape-bytes s))
]

-- What is written for a string is read back as that string, and it has no space in it.
pub proto_unescape-proto_escape : (s : Bytes) → proto_unescape (proto_escape s) ≡ s
proto_unescape-proto_escape s = rw (proto_escape-bytes s) (unescape-bytes s)
