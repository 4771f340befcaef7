-- ===== src/Hosts/Prep/Node.antt =====
-- `get_prep_node`, `prep_node` and `cleanup_node` of LYDIAN/lydian/utils/prep.py.
use distributed_apps_platfor.Base.{
  String, Bool, Option, none, some, attribute_error, not_implemented,
}
use distributed_apps_platfor.Base.Exec.{Exec, raise, ◌>>=◌}
use distributed_apps_platfor.Hosts.Prep.{Place, esx, ubuntu, windows, get_host_type}
use distributed_apps_platfor.Hosts.Prep.Firewall.{Numbers}
use distributed_apps_platfor.Hosts.Prep.Ubuntu
use distributed_apps_platfor.Hosts.Prep.Esx

module _ {S : Type 0} (place : Place S) (numbers : Numbers) where
  -- a node of an unknown kind is None, and has no `prep_node`; that of Windows is not implemented
  unfoldable pub prep_node : Option String → Option String → Exec S Bool
  prep_node egg_file_src cfg_path = do
    kind ← get_host_type place
    elim kind [
      | none ↦ raise attribute_error
      | some k ↦ elim k [
        | ubuntu ↦ Ubuntu.prep_node place egg_file_src cfg_path
        | esx ↦ Esx.prep_node place numbers egg_file_src cfg_path
        | windows ↦ raise not_implemented
      ]
    ]

  unfoldable pub cleanup_node : Bool → Exec S Bool
  cleanup_node remove_db = do
    kind ← get_host_type place
    elim kind [
      | none ↦ raise attribute_error
      | some k ↦ elim k [
        | ubuntu ↦ Ubuntu.cleanup_node place remove_db
        | esx ↦ Esx.cleanup_node place remove_db
        | windows ↦ raise not_implemented
      ]
    ]
