-- ===== src/Status.antt =====
-- status.c: the records of the status file, and how they are read. The stream that is read enters as
-- `getln` with the answer of stream_eof(); the stream that is written as what becomes of a line.
-- `buf` and the pointers to it are one record: `previous` is it, when it is in use, and `current`
-- tells whether st->current points to it.
pub mod Reading
pub mod Writing
pub mod Ops
pub mod Entries
pub mod Copied
pub mod Closed
pub mod Cooked
pub mod Deleted
pub mod Canonical
pub mod Edited
pub mod Removed
pub mod Unescaped
pub mod Streamed
use csup.Prelude.{
  ℕ, ◌+◌, ◌-◌, ◌≡◌, Bool, true, false, ltb, ◌==◌, ◌&&◌, ◌||◌, if◌then◌else◌, Bytes, List, [], ◌∷◌,
  ◌++◌, length, take, get_or, Option, none, some,
}
use csup.Prelude.Run.{Run, done, abort, ◌>>=◌}
use csup.Prelude.Int.{ℤ, pos, negsuc}
use csup.Fattr.{Fattr, same_bytes}
use csup.Fattr.Text.{fattr_decode}
use csup.Paths.Compare.{pathcmp}
use csup.Paths.Common.{slash}
use csup.Pathcomp.{Pathcomp, pathcomp_new}
use csup.Proto.Tokens.{proto_get_ascii, proto_get_char, proto_get_int, proto_get_time}

pub data SrType : Type 0 where
  sr_dirdown sr_checkoutlive sr_checkoutdead sr_filelive sr_filedead sr_dirup : SrType

pub record Statusrec : Type 0 where
  pub sr_type : SrType
  pub sr_file : Bytes
  pub sr_tag : Option Bytes
  pub sr_date : Option Bytes
  pub sr_revnum : Option Bytes
  pub sr_revdate : Option Bytes
  pub sr_serverattr : Option Fattr
  pub sr_clientattr : Option Fattr

-- A record of which only the type and the name are set.
abbrev pub raw : SrType → Bytes → Statusrec
raw type file = record {
  sr_type = type;
  sr_file = file;
  sr_tag = none;
  sr_date = none;
  sr_revnum = none;
  sr_revdate = none;
  sr_serverattr = none;
  sr_clientattr = none;
}

-- The STATUS_ERR codes; a bad type with `suberror`, of which `none` is -1.
pub data StatusError : Type 0 where
  err_read err_write err_parse err_unsorted err_trunc err_bogus_dirup err_rename : StatusError
  err_bad_type : Option ℕ → StatusError

-- What status.c stands on. `refused` answers, for what was written before and a line, `none` if
-- the line is written, and else the part of it that is.
pub record World (R : Type 0) : Type 0 where
  pub getln : R → Run (Option Bytes × R)
  pub at_eof : R → Bool
  pub user_of : ℕ → Option Bytes
  pub group_of : ℕ → Option Bytes
  pub uid_of : Bytes → Option ℕ
  pub gid_of : Bytes → Option ℕ
  pub refused : Bytes → Bytes → Option Bytes
  pub rename_fails : Bool

pub record Status (R : Type 0) : Type 0 where
  pub rd : Option R
  pub wr : Option Bytes
  pub error : Option StatusError
  pub pc : Pathcomp
  pub previous : Option Statusrec
  pub current : Bool
  pub scantime : ℤ
  pub eof : Bool
  pub linenum : ℕ
  pub depth : ℕ
  pub dirty : Bool

unfoldable pub status_new : {R : Type 0} → ℕ → ℤ → Option R → Status R
status_new memory scantime rd = record {
  rd = rd;
  wr = none;
  error = none;
  pc = pathcomp_new memory;
  previous = none;
  current = false;
  scantime = scantime;
  eof = false;
  linenum = 0;
  depth = 0;
  dirty = false;
}

abbrev pub is_dirup : SrType → Bool
is_dirup sr_dirup = true
is_dirup _ = false

-- A directory's end covers its own name and what lies in it.
abbrev pub covers : Bytes → Bytes → Bool
covers a b =
    ((ltb (length a) (length b) && get_or b (length a) 0 == slash) || length a == length b)
    && same_bytes a (take (length a) b)

unfoldable pub statusrec_cmp : SrType → Bytes → SrType → Bytes → ℤ
statusrec_cmp type a type' b =
    if is_dirup type && covers a b
    then pos 1
    else if is_dirup type' && covers b a
    then negsuc 0
    else pathcmp a b

-- `c >= 0`
abbrev pub not_below : ℤ → Bool
not_below (pos n) = true
not_below (negsuc n) = false

abbrev pub at_end : Option Bytes → Bool
at_end none = true
at_end (some s) = false

abbrev pub unless_missing {ℓ κ} :
    {A : Type ℓ} {B : Type κ} → Option A → (A → Run (Option B)) → Run (Option B)
unless_missing none f = done none
unless_missing (some a) f = f a
