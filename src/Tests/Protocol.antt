-- ===== src/Tests/Protocol.antt =====
-- Lines of the protocol.
use csup.Prelude.{ℕ, ◌≡◌, refl, arith, Bytes, List, [], ◌∷◌, map, Option, some, none}
use csup.Prelude.Run.{done, abort}
use csup.Prelude.Int.{negsuc}
use csup.Proto.Escape.{space, proto_escape, escape_loop, proto_unescape}
use csup.Proto.Tokens.{proto_printf, proto_get_ascii, proto_get_rest}
use csup.Proto.Lines.{
  Field, string, int, size, format_of, argument, get_fields, get_fields-proto_printf,
  proto_get_rest-last,
}

abbrev no_name : ℕ → Option Bytes
no_name n = none

-- `a b`
abbrev two_words : Bytes
two_words = b'a' ∷ space ∷ b'b' ∷ []

abbrev fields : List Field
fields = int (negsuc 6) ∷ size 12 ∷ []

escape_two_words : proto_escape two_words ≡ b'a' ∷ b'\\' ∷ b'_' ∷ b'b' ∷ []
unfolding proto_escape escape_loop
escape_two_words = refl

get_fields-proto_printf_example :
    (line : Bytes) × (proto_printf no_name no_name
        (format_of (string two_words) fields)
        (map argument (string two_words ∷ fields))
      ≡ done line)
    × (get_fields (string two_words ∷ fields) (some line)
        ≡ (some (string two_words ∷ fields), none))
get_fields-proto_printf_example =
    get_fields-proto_printf no_name no_name (string two_words) fields
      (λ e. absurd (cc), (refl, (omega arith, tt)))

proto_get_rest-last_example :
    (rest : Option Bytes) × (proto_get_ascii (some (b'.' ∷ []))
      ≡ (some (proto_unescape (b'.' ∷ [])), rest))
    × (proto_get_rest rest ≡ abort)
proto_get_rest-last_example = proto_get_rest-last b'.' [] (refl, tt)
