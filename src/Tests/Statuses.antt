-- ===== src/Tests/Statuses.antt =====
-- A status file from which an entry is deleted.
use csup.Status.Reading.{read_line, entry, statusrec_cook}
use csup.Status.Entries.{Entry, line}
use csup.Status.Writing.{status_wr, status_wrraw}
use csup.Prelude.{
  ℕ, ◌≡◌, ◌≢◌, refl, Bool, true, false, Bytes, List, [], ◌∷◌, ◌++◌, map, Option, none, some,
}
use csup.Prelude.Run.{Run, done}
use csup.Prelude.Int.{pos}
use csup.Fattr.{Fattr, cleared, fattr_supported, fattr_new}
use csup.Fattr.Text.{
  fattr_decode, fattr_encode, scan_field, scan_value, fattr_scanattr, scan_if, scan_linkcount,
  scan_rest, supported_only, mask_refused, encoded_mask, encode_with, piece, number_of_mask,
}
use csup.Numbers.{strtoul, strtoll, print, print_signed}
use csup.Pathcomp.{Pathcomp, pathcomp_new}
use csup.Pathcomp.InSync.{new}
use csup.Proto.Escape.{space, proto_unescape, proto_escape, escape_loop}
use csup.Status.{
  raw, sr_checkoutlive, sr_dirdown, sr_filelive, sr_filedead, sr_dirup, SrType, World, Status,
}
use csup.Status.Canonical.{IsCanonical, IsText, dir_down, checkout_live}
use csup.Status.Unescaped.{status_wrraw-space}

abbrev no_name : ℕ → Option Bytes
no_name n = none

abbrev no_id : Bytes → Option ℕ
no_id s = none

abbrev next_line : List Bytes → Run (Option Bytes × List Bytes)
next_line [] = done (none, [])
next_line (l ∷ ls) = done (some l, ls)

abbrev nothing_left : List Bytes → Bool
nothing_left [] = true
nothing_left (l ∷ ls) = false

-- The lines are at hand, and every write succeeds.
abbrev world : World (List Bytes)
world = record {
  getln = next_line;
  at_eof = nothing_left;
  user_of = no_name;
  group_of = no_name;
  uid_of = no_id;
  gid_of = no_id;
  refused = λ out l. none;
  rename_fails = false;
}

-- `1#11#1`: a file.
abbrev attr : Bytes
attr = b'1' ∷ b'#' ∷ b'1' ∷ b'1' ∷ b'#' ∷ b'1' ∷ []

abbrev decoded : Run (Option Fattr) → Fattr
decoded (done (some fa)) = fa
decoded _ = cleared

abbrev in_dir : SrType → Bytes → Bytes → Entry
in_dir kind dir plain = record { kind = kind; dir = dir; plain = plain; text = attr }

-- `a` and `b`, and in the directory `d` the file `x`, which is dead.
abbrev first : Entry
first = in_dir sr_filelive [] (b'a' ∷ [])

abbrev second : Entry
second = in_dir sr_filelive [] (b'b' ∷ [])

abbrev others : List Entry
others =
    in_dir sr_dirdown [] (b'd' ∷ [])
    ∷ in_dir sr_filedead (b'd' ∷ []) (b'x' ∷ [])
    ∷ in_dir sr_dirup [] (b'd' ∷ [])
    ∷ []

abbrev opened : Status (List Bytes)
opened = record {
  rd = some (map line (first ∷ second ∷ others));
  wr = some [];
  error = none;
  pc = pathcomp_new 0;
  previous = none;
  current = false;
  scantime = pos 0;
  eof = false;
  linenum = 1;
  depth = 0;
  dirty = false;
}

attr-IsText : IsText world attr (decoded (fattr_decode no_id no_id attr))
unfolding fattr_decode fattr_encode scan_field scan_value fattr_scanattr scan_if scan_linkcount
    scan_rest supported_only mask_refused encoded_mask encode_with piece number_of_mask print
    print_signed proto_escape escape_loop fattr_supported fattr_new strtoul strtoll
attr-IsText = record { some_text = λ e. absurd (cc); decodes = refl; encodes = refl }

-- A directory, and a file that is checked out with the tag `.`.
dir-IsCanonical : (plain : Bytes) → IsCanonical world (in_dir sr_dirdown [] plain)
dir-IsCanonical plain = record { behind = []; sr = _; is_record = dir_down; as_fields = refl }

abbrev checkout : Entry
checkout = record {
  kind = sr_checkoutlive;
  dir = [];
  plain = b'a' ∷ [];
  text = b'.' ∷ space ∷ b'.' ∷ space ∷ attr ++ (space ∷ b'1' ∷ space ∷ b'0' ∷ space ∷ attr);
}

checkout-IsCanonical : IsCanonical world checkout
unfolding proto_escape escape_loop
checkout-IsCanonical =
    let one : (c : ℕ) → (c ∷ []) ≢ [] = λ c e. cc in
    record {
      behind = (b'.' ∷ []) ∷ (b'.' ∷ []) ∷ attr ∷ (b'1' ∷ []) ∷ (b'0' ∷ []) ∷ attr ∷ [];
      sr = _;
      is_record =
          checkout_live (b'.' ∷ []) (b'.' ∷ []) attr (b'1' ∷ []) (b'0' ∷ []) attr _ _ (one b'.')
            (one b'.') (one b'1') (one b'0') attr-IsText attr-IsText;
      as_fields = refl;
    }

-- The directory `e f`.
status_wrraw-space_example :
    (pc : Pathcomp) × (status_wr world opened (raw sr_dirdown (b'e' ∷ space ∷ b'f' ∷ []))
      ≡ done (
        true,
        record opened {
          pc = pc;
          wr = some ((b'D' ∷ space ∷ proto_escape (b'e' ∷ space ∷ b'f' ∷ [])) ++ (b'\n' ∷ []));
        },
      ))
    × (read_line world opened (b'D' ∷ space ∷ proto_escape (b'e' ∷ space ∷ b'f' ∷ []))
        ≡ done (entry world opened sr_dirdown (b'e' ∷ space ∷ b'f' ∷ []) none))
    × (status_wrraw world opened (raw sr_dirdown (b'e' ∷ space ∷ b'f' ∷ [])) none
        ≡ done (
          true,
          record opened { pc = pc; wr = some (b'D' ∷ space ∷ b'e' ∷ space ∷ b'f' ∷ b'\n' ∷ []) },
        ))
    × (read_line world opened (b'D' ∷ space ∷ b'e' ∷ space ∷ b'f' ∷ [])
        ≡ done (entry world opened sr_dirdown (proto_unescape (b'e' ∷ [])) (some (b'f' ∷ []))))
    × ((n : Bytes) → statusrec_cook world (raw sr_dirdown n) (some (b'f' ∷ [])) ≡ done none)
status_wrraw-space_example =
    status_wrraw-space world opened opened [] (b'e' ∷ space ∷ b'f' ∷ []) b'e' [] (b'f' ∷ []) []
      (new 0) (refl, (refl, (refl, tt))) (λ k. absurd (cc)) refl (refl, tt) (λ out l. refl) refl
