-- ===== src/Oblig/Programs/Delete.antt =====
-- The program oblig/del_fs.c.
pub mod Rules
pub mod Ends
pub mod Sections
use in2140_introduksjon_til.Oblig.Blocks.{BlockStore}
use in2140_introduksjon_til.Common.Words.{Bytes, codes}
use in2140_introduksjon_til.Oblig.System.{
  Action, ◌>>=◌, ◌>>◌, pure, target, seen, find, remove_file, remove_dir, save, load, Machine,
  Pointer, null, dangling, to, broken, returned,
}
use in2140_introduksjon_til.Common.{ℕ, Bool, true, false, none, some}

-- `if( node ) …`
abbrev pub when : {B : BlockStore} → Pointer → Action B (Unit {0}) → Action B (Unit {0})
when null m = pure tt
when dangling m = m
when (to k p) m = m

-- A pointer to an inode that `delete_dir` has released.
abbrev pub after : Bool → Pointer → Pointer
after true q = dangling
after false q = q

module _ {B : BlockStore} where
  -- `node->name` is read.
  unfoldable pub follow : Pointer → Action B (Unit {0})
  unfolding seen target
  follow q fs = elim (seen fs q) [
    | none ↦ broken
    | some none ↦ broken
    | some (some x) ↦ returned (tt, fs)
  ]

  unfoldable pub try_delete_dir : Pointer → Pointer → Action B Bool
  try_delete_dir parent dir = do follow dir; remove_dir parent dir

  unfoldable pub try_delete_file : Pointer → Pointer → Action B Bool
  try_delete_file parent file = do follow file; remove_file parent file

  -- `node = find_inode_by_name( dir, … ); if( node ) try_delete_file( dir, node );`
  unfoldable pub delete_found : Pointer → Bytes → Action B (Unit {0})
  delete_found dir n = do node ← find dir n; when node (try_delete_file dir node >> pure tt)

  -- The block `if( log_dir )`.
  unfoldable pub delete_log_dir : Pointer → Pointer → Action B (Unit {0})
  delete_log_dir var_dir log_dir = do
    deleted ← try_delete_dir var_dir log_dir
    delete_found (after deleted log_dir) (codes "message")
    delete_found (after deleted log_dir) (codes "warn")
    delete_found (after deleted log_dir) (codes "fail")
    try_delete_dir var_dir (after deleted log_dir)
    pure tt

  unfoldable pub delete_log : Pointer → Action B (Unit {0})
  delete_log root = do
    var_dir ← find root (codes "var")
    when var_dir
        (do log_dir ← find var_dir (codes "log"); when log_dir (delete_log_dir var_dir log_dir))

  unfoldable pub delete_man : Pointer → Action B (Unit {0})
  delete_man root = do
    share ← find root (codes "share")
    when share (do dir ← find share (codes "man"); when dir (delete_found dir (codes "read.2")))

  unfoldable pub delete_in_etc : Pointer → Bytes → Action B (Unit {0})
  delete_in_etc root n = do dir ← find root (codes "etc"); when dir (delete_found dir n)

  unfoldable pub delete_httpd : Pointer → Action B (Unit {0})
  delete_httpd root = do
    dir ← find root (codes "etc")
    when dir (do
      http_dir ← find dir (codes "httpd")
      when http_dir (do
        _ ← try_delete_dir dir http_dir
        again ← find dir (codes "httpd")
        when again (do
          node ← find again (codes "conf")
          when node (do try_delete_file again node; try_delete_dir dir again; pure tt))))

  -- The block `if( dl_dir )`.
  unfoldable pub delete_download : Pointer → Pointer → Pointer → Action B (Unit {0})
  delete_download dir udir dl_dir = do
    _ ← try_delete_dir udir dl_dir
    again ← find udir (codes "Download")
    when again (do
      ob_node ← find again (codes "oblig2")
      when ob_node (do
        try_delete_file again ob_node
        try_delete_dir udir again
        try_delete_dir dir udir
        pure tt))

  unfoldable pub delete_home : Pointer → Action B (Unit {0})
  delete_home root = do
    dir ← find root (codes "home")
    when dir (do
      found ← find dir (codes "user")
      when found (do
        _ ← try_delete_dir dir found
        udir ← find dir (codes "user")
        dl_dir ← find udir (codes "Download")
        when dl_dir (delete_download dir udir dl_dir)))

  -- `main` behind `load_inodes`
  unfoldable pub clean : Machine → Pointer → Action B (Unit {0})
  clean w root = do
    delete_found root (codes "kernel")
    delete_log root
    delete_man root
    delete_in_etc root (codes "hosts")
    delete_in_etc root (codes "host.conf")
    delete_httpd root
    delete_home root
    save w root

  unfoldable pub del_fs : (memory : ℕ → Bool) → Machine → Action B (Unit {0})
  del_fs memory w = do root ← load memory; clean w root
