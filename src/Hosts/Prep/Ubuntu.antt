-- ===== src/Hosts/Prep/Ubuntu.antt =====
-- `UbuntuNodePrep` of LYDIAN/lydian/utils/prep.py.
use distributed_apps_platfor.Base.{
  String, Bool, true, Option, none, some, attribute_error, if◌then◌else◌, join, strip,
}
use text.Mathlib.Text.{starts_with}
use distributed_apps_platfor.Base.Exec.{Exec, pure, raise, lift, skip, ◌>>=◌, ◌>>◌}
use distributed_apps_platfor.Hosts.Prep.{
  Place, on_host, call, ignore_value_error, run_ignore_error, cleanup_db, sync_ntp_server, copy_egg,
  copy_config, fill_lines, started,
}

module _ {S : Type 0} (place : Place S) where
  unfoldable pub setup_service : Exec S (Unit {0})
  setup_service = do
    reply ← place.req_call "which python3" none
    python3_path ← elim reply [ none ↦ raise attribute_error | some path ↦ pure (strip path) ]
    service_file_lines ← place.read_lines (join place.data_dir "lydian.service")
    lines ←
        lift (fill_lines place (λ x. starts_with x "ExecStart=") python3_path service_file_lines)
    place.put_lines lines "/etc/systemd/system/lydian.service"

  unfoldable pub prep_node : Option String → Option String → Exec S Bool
  prep_node egg_file_src cfg_path = on_host place (do
    ignore_value_error place (call place "systemctl stop lydian")
    sync_ntp_server place
    copy_egg place egg_file_src "/root/lydian.egg"
    copy_config place cfg_path
    setup_service
    started place (do
      call place "sudo systemctl enable lydian.service"
      call place "sudo systemctl daemon-reload"
      call place "systemctl start lydian"))

  unfoldable pub cleanup_node : Bool → Exec S Bool
  cleanup_node remove_db = on_host place (do
    run_ignore_error place "systemctl stop lydian"
    run_ignore_error place "sudo systemctl disable lydian.service"
    run_ignore_error place "rm /etc/lydian/lydian.conf"
    run_ignore_error place "rm /etc/systemd/system/lydian.service"
    run_ignore_error place "rm /var/log/lydian/lydian.log"
    run_ignore_error place "rm lydian.egg"
    if remove_db then cleanup_db place else skip
    pure true)
