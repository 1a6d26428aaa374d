-- ===== src/Tests/Blocks.antt =====
-- rsyncfile.c: a file of 6144 bytes.
use csup.Prelude.{
  ℕ, none, ◌⊎◌, ◌+◌, ◌<◌, ◌≤◌, ◌++◌, ◌∷◌, drop, ◌≡◌, refl, arith, Bytes, [], length, replicate,
  length-replicate, some,
}
use csup.Rsyncfile.{
  Rsyncfile, rsync_chooseblocksize, rsync_open, rsync_nextblock, search_from, search_region,
}
use csup.Rsyncfile.Blocks.{chosen_blocksize_zero, rsync_nextblock-advances}

abbrev file : Bytes
file = replicate 6144 0

abbrev no_digest : Bytes → Bytes
no_digest block = []

file-length : length file ≡ 6144
file-length = length-replicate {A = ℕ} 6144 0

-- 736 is the least remainder of 7000, by 1044.
odd_size : rsync_chooseblocksize 7000 ≡ 736
unfolding rsync_chooseblocksize search_from search_region
odd_size = refl

chosen_blocksize_zero_example :
    (rsync_chooseblocksize (length file) ≡ 0)
    × (rf : Rsyncfile) × (rsync_nextblock no_digest (rsync_open file 0) ≡ some ([], rf))
    × (rf.blockptr ≡ (rsync_open file 0).blockptr)
chosen_blocksize_zero_example =
    chosen_blocksize_zero no_digest file 6 (omega (arith, file-length)) (omega (arith, file-length))
      (omega (arith, file-length))

abbrev small_file : Rsyncfile
small_file = record {
  content = 1 ∷ 2 ∷ 3 ∷ [];
  blocksize = 2;
  blockptr = 2;
  blocknum = 1;
  blockmd5 = [];
  rsum = 0;
}

rsync_nextblock-advances_example :
    ((rsync_nextblock no_digest small_file ≡ none)
      × (small_file.blockptr ≡ length small_file.content))
    ⊎ ((block : Bytes) × (rf : Rsyncfile) × (rsync_nextblock no_digest small_file
          ≡ some (block, rf))
        × (block ++ drop rf.blockptr small_file.content
            ≡ drop small_file.blockptr small_file.content)
        × (0 < length block)
        × (length block ≤ small_file.blocksize)
        × (rf.blockptr ≡ small_file.blockptr + length block)
        × (rf.content ≡ small_file.content)
        × (rf.blockptr ≤ length small_file.content))
rsync_nextblock-advances_example =
    rsync_nextblock-advances no_digest small_file (omega arith) (omega arith)
