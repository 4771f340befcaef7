-- ===== src/Hosts/Prep/Esx.antt =====
-- `ESXNodePrep` of LYDIAN/lydian/utils/prep.py.
use Prim.Native.String.{◌++◌}
use distributed_apps_platfor.Base.{
  String, Bool, true, Option, none, some, ok, err, if◌then◌else◌, join,
}
use distributed_apps_platfor.Base.Exec.{Exec, pure, skip, ◌>>=◌, ◌>>◌}
use distributed_apps_platfor.Hosts.Prep.{
  Place, on_host, call, given, ignore_value_error, run_ignore_error, cleanup_db, copy_egg,
  copy_config, started,
}
use distributed_apps_platfor.Hosts.Prep.Firewall.{Numbers, config_firewall}

module _ {S : Type 0} (place : Place S) where
  unfoldable pub copy_service : Exec S (Unit {0})
  copy_service = place.put_file (join place.data_dir "lydian_esx.service") "/etc/init.d/lydian"

  unfoldable pub prep_node : Numbers → Option String → Option String → Exec S Bool
  prep_node numbers egg_file_src cfg_path = on_host place (do
    ignore_value_error place (call place "/etc/init.d/lydian stop")
    call place "mkdir -p /lydian"
    copy_egg place egg_file_src "/lydian/lydian.egg"
    copy_config place cfg_path
    copy_service
    call place "chmod 555 /etc/init.d/lydian"
    place.put_file (join place.data_dir "lydian_esx.sh") "/lydian/lydian.sh"
    call place "chmod 555 /lydian/lydian.sh"
    config_firewall place numbers
    started place (do _ ← place.req_call "/etc/init.d/lydian start" (some 4); skip))

  unfoldable pub cleanup_node : Bool → Exec S Bool
  cleanup_node remove_db = on_host place (do
    run_ignore_error place "/etc/init.d/lydian uninstall"
    run_ignore_error place "rm /etc/lydian/lydian.conf"
    run_ignore_error place "rm /var/log/lydian/lydian.log"
    run_ignore_error place "rm lydian.egg"
    if remove_db then cleanup_db place else skip
    pure true)

  -- an error is logged, and None returned
  unfoldable pub get_running_processes : Option String → Exec S (Option String)
  get_running_processes grep_args s =
      let cmnd = "ps -Tcjstv" ++ (if given grep_args then grep grep_args else "") in
      let (r, s') = on_host place (place.req_call cmnd none) s in
      elim r [ ok reply ↦ (ok reply, s') | err _ ↦ (ok none, s') ]
    where
      grep : Option String → String
      grep none = ""
      grep (some args) = " | grep " ++ args
