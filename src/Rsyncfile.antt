-- ===== src/Rsyncfile.antt =====
-- rsyncfile.c: a file cut into blocks for an rsync transfer. The mapped file is the list of its
-- bytes; `md5` is the digest of a block, and `rsumstr` is the text of `rsum`.
pub mod Blocks
use csup.Prelude.{
  ℕ, zero, suc, ◌+◌, ◌-◌, ◌*◌, ◌/◌, ◌%◌, ◌^◌, ltb, leb, ◌==◌, if◌then◌else◌, Bytes, [], ◌∷◌, Option,
  none, some, length, take, drop, min,
}
use Prim.Native.Nat.{bit_or}
use csup.Mux.Word.{add_size, sub_size, add_u32}

abbrev pub minblocksize : ℕ
minblocksize = 1024

abbrev pub maxblocksize : ℕ
maxblocksize = 16 * 1024

abbrev pub searchregion : ℕ
searchregion = 10

-- RECEIVEBUFFERSIZE / BLOCKINFOSIZE
abbrev pub maxblocks : ℕ
maxblocks = (15 * 1024) / 26

-- `struct rsyncfile`, less the descriptor; `blockptr` is an index.
pub record Rsyncfile : Type 0 where
  pub content : Bytes
  pub blocksize : ℕ
  pub blockptr : ℕ
  pub blocknum : ℕ
  pub blockmd5 : Bytes
  pub rsum : ℕ

-- The for loop: `n` values of `bs` are left; `bestrem` and `blocksize` are what it assigns.
unfoldable pub search_from : ℕ → ℕ → ℕ → ℕ × ℕ → ℕ × ℕ
search_from zero bs fsize (bestrem, blocksize) = (bestrem, blocksize)
search_from (suc n) bs fsize (bestrem, blocksize) =
    search_from n (bs + 1) fsize
      (if ltb (fsize % bs) bestrem then (fsize % bs, bs) else (bestrem, blocksize))

-- `losearch` and `hisearch`.
unfoldable pub search_region : ℕ → ℕ × ℕ
search_region blocksize =
    let losearch : ℕ = sub_size blocksize searchregion in
    let hisearch : ℕ = add_size blocksize searchregion in
    if ltb losearch minblocksize
    then (minblocksize, minblocksize + 2 * searchregion)
    else if ltb maxblocksize hisearch
    then (maxblocksize - 2 * searchregion, maxblocksize)
    else (losearch, hisearch)

unfoldable pub rsync_chooseblocksize : ℕ → ℕ
unfolding search_from search_region
rsync_chooseblocksize fsize =
    let (losearch, hisearch) = search_region (fsize / maxblocks) in
    (search_from (hisearch + 1 - losearch) losearch fsize (maxblocksize, fsize / maxblocks)).0

-- rsync_open() of a file that can be opened and mapped.
unfoldable pub rsync_open : Bytes → ℕ → Rsyncfile
unfolding rsync_chooseblocksize
rsync_open content blocksize = record {
  content = content;
  blocksize = if blocksize == 0 then rsync_chooseblocksize (length content) else blocksize;
  blockptr = 0;
  blocknum = 0;
  blockmd5 = [];
  rsum = 0;
}

-- `char` is signed: from 128 on a byte c stands for c - 256.
abbrev pub char_u32 : ℕ → ℕ
char_u32 c = if ltb c 128 then c else c + 2 ^ 32 - 256

-- The loop over the bytes of a block, with `a` and `b`, and the two put together.
unfoldable pub rollsum_from : ℕ → ℕ → Bytes → ℕ
rollsum_from a b [] = bit_or ((b * 2 ^ 16) % 2 ^ 32) a
rollsum_from a b (c ∷ s) =
    let a' : ℕ = add_u32 a (char_u32 c + 3) in rollsum_from a' (add_u32 b a') s

unfoldable pub rsync_rollsum : Bytes → ℕ
unfolding rollsum_from
rsync_rollsum block = rollsum_from 0 0 block

-- The next block, if the end is not reached.
unfoldable pub rsync_nextblock : (Bytes → Bytes) → Rsyncfile → Option (Bytes × Rsyncfile)
unfolding rsync_rollsum
rsync_nextblock md5 rf =
    if leb (length rf.content) rf.blockptr
    then none
    else let blocksize : ℕ = min (length rf.content - rf.blockptr) rf.blocksize in
      let block : Bytes = take blocksize (drop rf.blockptr rf.content) in
      some (
        block,
        record rf {
          blockptr = rf.blockptr + blocksize;
          blocknum = rf.blocknum + 1;
          blockmd5 = md5 block;
          rsum = rsync_rollsum block;
        },
      )
