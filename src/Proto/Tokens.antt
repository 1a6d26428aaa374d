-- ===== src/Proto/Tokens.antt =====
-- proto.c: lines of the protocol, proto_printf() and the proto_get_...() functions, with
-- asciitoint() of misc.c. A pointer into a line is what stands behind it, `none` a null pointer;
-- writing into the stream succeeds.
use csup.Prelude.{
  ℕ, ◌^◌, Bool, ◌||◌, ltb, ◌==◌, if◌then◌else◌, Bytes, List, [], ◌∷◌, ◌++◌, Option, some, none,
}
use csup.Prelude.Run.{Run, done, abort, ◌>>=◌}
use csup.Prelude.Int.{ℤ, pos, negsuc}
use csup.Numbers.{print, print_signed, strtoll, cast}
use csup.Fattr.{Fattr, Mask, no_attrs}
use csup.Fattr.Text.{fattr_encode, whole}
use csup.Proto.Escape.{space, proto_escape, proto_unescape}

abbrev pub before_space : Bytes → Bytes
before_space [] = []
before_space (c ∷ s) = if c == space then [] else c ∷ before_space s

-- `none`: there is no space.
abbrev pub behind_space : Bytes → Option Bytes
behind_space [] = none
behind_space (c ∷ s) = if c == space then some s else behind_space s

-- What is returned, and the pointer `*s`.
abbrev pub Got {ℓ} : Type ℓ → Type ℓ
Got A = Option A × Option Bytes

-- The characters of a token are not changed before it is known not to be empty.
unfoldable pub proto_get_ascii : Option Bytes → Got Bytes
proto_get_ascii none = (none, none)
proto_get_ascii (some line) = elim (before_space line) [
  | [] ↦ (none, none)
  | c ∷ t ↦ (some (proto_unescape (c ∷ t)), behind_space line)
]

-- The bytes of a character token; an escape that leaves nothing fails the assertion.
unfoldable pub proto_get_char : Option Bytes → Run (Got ℕ)
unfolding proto_get_ascii
proto_get_char s =
    let (token, rest) = proto_get_ascii s in
    elim token [
      | none ↦ done (none, rest)
      | some [] ↦ abort
      | some (c ∷ []) ↦ done (some c, rest)
      | some (c ∷ d ∷ t) ↦ done (none, none)
    ]

-- Only a null `s` is tested: at the end of a line, where `*s` is null, strchr() gets it.
unfoldable pub proto_get_rest : Option Bytes → Run (Got Bytes)
proto_get_rest none = abort
proto_get_rest (some line) = done (some (proto_unescape line), none)

-- INT_MIN to INT_MAX
abbrev pub fits_int : ℤ → Bool
fits_int (pos n) = ltb n (2 ^ 31)
fits_int (negsuc n) = ltb n (2 ^ 31)

unfoldable pub asciitoint : Bytes → ℕ → Option ℤ
asciitoint s base = elim (whole (strtoll base s)) [
  | none ↦ none
  | some v ↦ if fits_int v then some v else none
]

-- What `read` makes of a token, if there is one.
abbrev pub get_with {ℓ} : {A : Type ℓ} → (Bytes → Option A) → Option Bytes → Got A
get_with read s =
    let (token, rest) = proto_get_ascii s in (elim token [ none ↦ none | some t ↦ read t ], rest)

unfoldable pub proto_get_int : Option Bytes → ℕ → Got ℤ
proto_get_int s base = get_with (λ t. asciitoint t base) s

unfoldable pub proto_get_sizet : Option Bytes → ℕ → Got ℕ
proto_get_sizet s base =
    get_with (λ t. elim (whole (strtoll base t)) [ none ↦ none | some v ↦ some (cast 64 v) ]) s

unfoldable pub proto_get_time : Option Bytes → Got ℤ
proto_get_time s = get_with (λ t. whole (strtoll 10 t)) s

-- The arguments of proto_printf(): char, int, off_t, time_t, size_t, char *, struct fattr *, and the
-- table and the mask that follow the latter for "%A".
pub data Arg : Type 0 where
  char_arg : ℕ → Arg
  int_arg : ℤ → Arg
  off_arg : ℤ → Arg
  time_arg : ℤ → Arg
  size_arg : ℕ → Arg
  string_arg : Bytes → Arg
  fattr_arg : Fattr → Arg
  support_arg : Option (ℕ → Mask) → Arg
  ignore_arg : Mask → Arg

module _ (user_of group_of : ℕ → Option Bytes) where
  -- The conversions that take one argument; one that is not there or has another type is not
  -- defined.
  unfoldable pub convert : ℕ → Arg → Run Bytes
  convert d (char_arg c) = if d == b'c' then done (c ∷ []) else abort
  convert d (int_arg v) =
      if d == b'd' || d == b'i'
      then done (print_signed 10 v)
      else if d == b'x'
      then done (print 16 (cast 32 v))
      else if d == b'o'
      then done (print 8 (cast 32 v))
      else abort
  convert d (off_arg v) = if d == b'O' then done (print_signed 10 v) else abort
  convert d (time_arg v) = if d == b't' then done (print_signed 10 v) else abort
  convert d (size_arg n) = if d == b'z' then done (print 10 n) else abort
  convert d (string_arg s) =
      if d == b'S' then done s else if d == b's' then done (proto_escape s) else abort
  convert d (fattr_arg fa) =
      if d == b'a'
      then (fattr_encode user_of group_of fa none no_attrs >>= λ text. done (proto_escape text))
      else abort
  convert d (support_arg table) = abort
  convert d (ignore_arg m) = abort

  -- "%A" takes three.
  unfoldable pub convert_supported : List Arg → Run (Bytes × List Arg)
  convert_supported (fattr_arg fa ∷ support_arg table ∷ ignore_arg m ∷ args) =
      fattr_encode user_of group_of fa table m >>= λ text. done (proto_escape text, args)
  convert_supported _ = abort

  abbrev pub convert_next : ℕ → List Arg → Run (Bytes × List Arg)
  convert_next d [] = abort
  convert_next d (arg ∷ args) = convert d arg >>= λ out. done (out, args)

  abbrev pub takes_one : ℕ → Bool
  takes_one d =
      d == b'c'
      || (d == b'd'
          || (d == b'i'
              || (d == b'x'
                  || (d == b'o'
                      || (d == b'O'
                          || (d == b'S'
                              || (d == b's' || (d == b't' || (d == b'a' || d == b'z')))))))))

  -- One directive: what is written, and the arguments left. What is not a format writes nothing.
  unfoldable pub directive : ℕ → List Arg → Run (Bytes × List Arg)
  directive d args =
      if takes_one d
      then convert_next d args
      else if d == b'A'
      then convert_supported args
      else if d == b'%'
      then done (b'%' ∷ [], args)
      else done ([], args)

  -- What is written. A '%' at the end of the format ends it.
  unfoldable pub proto_printf : Bytes → List Arg → Run Bytes
  proto_printf [] args = done []
  proto_printf (c ∷ []) args = if c == b'%' then done [] else done (c ∷ [])
  proto_printf (c ∷ d ∷ fmt) args =
      let plain = proto_printf (d ∷ fmt) args in
      let formatted : Run Bytes = directive d args >>= λ (out, left).
      (proto_printf fmt left >>= λ more. done (out ++ more)) in
      if c == b'%' then formatted else (plain >>= λ more. done (c ∷ more))
