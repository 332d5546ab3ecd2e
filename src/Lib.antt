-- ===== src/Lib.antt =====
-- advfs-fuse: a read-only driver for AdvFS disk images (FUSE file system and command line tool).
--
-- The program is a stack of C modules under src/. volume.c reads bytes of a vdisk file behind a
-- partition offset. bmt.c reads 8 KB pages of the bitfile metadata table (BMT) and walks the typed
-- records of the 28 mcells on a page; util.c turns BMT page numbers into volume pages through the
-- BMT's own extent map. domain.c holds the volumes of a domain and reads BMT pages of any of them.
-- extents.c collects the extent map of a bitfile from its mcell chain, interleaves the columns of
-- striped files, and reads one page of a bitfile. fileset.c, filedata.c and dir.c read filesets, file
-- contents and directories on top of that, fuse_ops.c and advfs_tool.c present them.
--
-- Which file models which part (each with its proofs in the modules below it):
--   Ods                src/ods.h: struct layouts as reads at byte offsets, bit fields, constants
--   Util               src/util.h, src/util.c: advfs_page_to_offset and its kin,
--                      advfs_bmt_resolve_page (bmt_resolve_page)
--   Volume             src/volume.c: vol_pread, advfs_volume_read_page (read_page),
--                      advfs_volume_read_block, advfs_volume_detect_version,
--                      advfs_volume_open_at (open_at)
--   Volume/Disklabel   advfs_volume_read_disklabel
--   Bmt                src/bmt.c: advfs_bmt_read_page (bmt_read_page), advfs_bmt_get_mcell,
--                      advfs_bmt_find_rec (find_rec), advfs_bmt_next_rec
--   Domain             src/domain.c: domain_find_vd (find_vd), advfs_domain_vd_vol,
--                      advfs_domain_read_bmt_page, advfs_domain_read_bmt_page_vd
--   Domain/Meta        build_meta_extent_map
--   Domain/Open        domain_open_primary, attach_secondary_volume, advfs_domain_open_multi; proofs in
--                      Attach, Attached, Opened and Refused
--   Extents            src/extents.c: append_extent, collect_array, advfs_extents_page_count
--   Extents/Lookup     the lookup loop of read_data_core (find_extent)
--   Extents/ReadData   read_data_core, advfs_extents_read_data and its _dom and _dom_ex variants
--   Extents/Stripe     col_lookup, advfs_extents_stripe_interleave (stripe_interleave)
--   Extents/Chain      extents_read_core, src_read_bmt_page, advfs_extents_read and
--                      advfs_extents_read_dom; the chain loop is walk_chain
--   Filedata           src/filedata.c: bmt_scan_pages, find_tag_by_bmt_scan, resolve_tag_mcell
--   Filedata/Records   find_rec_in_chain, read_file_extents
--   Filedata/Copy      clone_fallback_resolve, clone_fallback_read_page, copy_bitfile_bytes
--   Filedata/Read      read_frag_tail, advfs_filedata_stat, filedata_read_impl (filedata_read)
--   Fileset            src/fileset.c: read_extents_via_chain, advfs_fileset_tag_extents
--   Fileset/Enumerate  try_fileset_from_mcell, advfs_fileset_list
--   Fileset/Listed     src/domain.c: advfs_domain_list_filesets (list_filesets)
--   Dir                src/dir.c: walk_dir_block
--   Dir/Mcells         find_xtnts_mcell, advfs_dir_has_undelete
--   Dir/Read           dir_resolve_extents, advfs_dir_read, advfs_dir_read_full and
--                      advfs_dir_read_full_clone
--   FuseOps            src/fuse_ops.c: cache_file_locked, advfs_op_read behind the tag's resolution
--   FuseOps/Path       lookup_cb, resolve_component, advfs_fuse_resolve_path
--   FuseOps/Ops        advfs_op_getattr, advfs_op_readdir, advfs_op_open, advfs_op_read,
--                      advfs_op_readlink
--   Tool               src/advfs_tool.c: read_dir_entries, stat_tag_checked, lookup_entry and the
--                      callbacks that collect entries and filesets
--   Tool/Recursive     rcount_t, the visited set, count_recursive
--   Tool/Modes         mode_type_str, mode_to_perms
--   Main               src/main.c: capture_first_fileset, the choice of the fileset, the context
--   Runs               the description of a map from page ranges that the lookup loops are held to
--   Base               Boolean tests, lists, results with error numbers
--   Examples           tests, and each theorem at a concrete input
--
-- How C is represented. A buffer is a function from byte offsets to bytes, so a struct laid over it is
-- a read at an offset, and what lies behind the buffer has a value that a theorem can show not to
-- matter. Unsigned arithmetic is on natural numbers with its wrap written out (% 2 ^ 32, % 2 ^ 64). An
-- array with a count is a list. A function that returns 0 or -errno returns `ok` with what it writes
-- through its out parameters, or `err` with the error number. A pointer that the code tests for NULL
-- is an Option where a caller can pass NULL (volumes, domains, the BMT map); out parameters are
-- results, and one Boolean stands for "no pointer argument is NULL" where they are tested together.
-- Log messages are left out.
--
-- The operating system. pread() is not code of the program: a volume carries the list of answers that
-- one read gets (a count, EINTR, an error), and theorems quantify over these lists. AreShort says that
-- pread() stores no more than it was asked for; Deliver says that the counts add up to the whole read.
--
-- Loops and fuel. advfs_bmt_find_rec runs on 68 rounds: a record has 4 bytes at least and the area
-- 268, so 68 rounds pass its end. advfs_extents_stripe_interleave runs on total + 1 rounds, since each
-- round maps a page or more. The chain loop of
-- extents_read_core has the 512 hops that the code allows. The mcell
-- searches have the 16 hops of the code. walk_dir_block runs on 64 rounds, since an entry of a 512-byte block takes 8 bytes or more.
-- count_recursive has the 65 levels that its depth test allows. copy_bitfile_bytes runs on as many rounds as bytes to copy,
-- since each round copies a byte or more. The pread() loop recurs on the answers. `stuck` marks fuel or answers
-- that ran out; that it does not arise is proved where fuel is used.
--
-- Callbacks and the original file's map, which the C code keeps in caller memory, are explicit: a
-- directory walk passes its user data on, a clone's fallback context goes from page to page, and the
-- FUSE cache is the state that a read takes and gives back under its lock.
--
-- Not modelled: printing, logging, option parsing, FUSE registration, the mutex of the cache, statfs,
-- the times of getattr, failure of malloc() and realloc(), and the command modes of advfs_tool.c,
-- which print. Counters that only go up by one are natural numbers: those of 64 bits of the tool, and
-- deleted_count of dir.c, of 32 bits, which 16384 pages of at most 1024 entries keep at 2 ^ 24 or less.
pub mod Base
pub mod Runs
pub mod Ods
pub mod Util
pub mod Volume
pub mod Bmt
pub mod Domain
pub mod Extents
pub mod Examples
pub mod Fileset
pub mod Dir
pub mod FuseOps
pub mod Tool
pub mod Main
pub mod Filedata
