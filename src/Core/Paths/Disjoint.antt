-- ===== src/Core/Paths/Disjoint.antt =====
-- Accepted application directories are apart from one another.
use saiai_client.Prelude.{◌≡◌, false, List, String, is_empty, arith}
use saiai_client.Prelude.Result.{ok, >>=-eq-ok}
use saiai_client.Core.Error.{FilePath}
use saiai_client.Core.Fs.{under}
use saiai_client.Core.Paths.{
  AppPaths, Component, normalize_app_dir, app_dirs_overlap, from_app_dirs,
}

-- No directory is the root, and none is equal to another or lies below it.
pub record AreDisjoint (p : AppPaths) : Type 0 where
  pub config_named : is_empty p.config_dir ≡ false
  pub data_named : is_empty p.data_dir ≡ false
  pub state_named : is_empty p.state_dir ≡ false
  pub config_data : under p.config_dir p.data_dir ≡ false
  pub data_config : under p.data_dir p.config_dir ≡ false
  pub config_state : under p.config_dir p.state_dir ≡ false
  pub state_config : under p.state_dir p.config_dir ≡ false
  pub data_state : under p.data_dir p.state_dir ≡ false
  pub state_data : under p.state_dir p.data_dir ≡ false

named :
    (field : String) (path : List Component) (r : FilePath)
    → normalize_app_dir field path ≡ ok r
    → is_empty r ≡ false
unfolding normalize_app_dir
named field path r h = ground arith

-- Whatever the three given paths, the directories that `from_app_dirs` returns are not the root,
-- and no two of them are equal or nested.
pub from_app_dirs-AreDisjoint :
    (config data_path state : List Component) (p : AppPaths)
    → from_app_dirs config data_path state ≡ ok p
    → AreDisjoint p
unfolding from_app_dirs app_dirs_overlap
from_app_dirs-AreDisjoint config data_path state p h =
    let (c, ec, h1) = >>=-eq-ok (normalize_app_dir "config_dir" config) _ h in
    let (d, ed, h2) = >>=-eq-ok (normalize_app_dir "data_dir" data_path) _ h1 in
    let (s, es, h3) = >>=-eq-ok (normalize_app_dir "state_dir" state) _ h2 in
    let nc = named "config_dir" config c ec in
    let nd = named "data_dir" data_path d ed in
    let ns = named "state_dir" state s es in
    record {
      config_named = ground arith;
      data_named = ground arith;
      state_named = ground arith;
      config_data = ground arith;
      data_config = ground arith;
      config_state = ground arith;
      state_config = ground arith;
      data_state = ground arith;
      state_data = ground arith;
    }
