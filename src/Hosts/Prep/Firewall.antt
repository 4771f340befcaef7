-- ===== src/Hosts/Prep/Firewall.antt =====
-- `config_firewall` of LYDIAN/lydian/utils/prep.py: the rule of the service in the firewall of an ESX
-- host.
pub mod Rule
use Prim.Native.String.{◌++◌, slice, len}
use Prim.Native.Char.{code}
use Prim.Native.String
use text.Mathlib.Text.{starts_with, find?}
use distributed_apps_platfor.Base.{
  ◌≡◌, ◌+◌, ℕ, zero, suc, String, Bool, true, false, not, ◌||◌, List, [], ◌∷◌, map, Option, none,
  some, ℤ, pos, negsuc, Result, ok, err, Error, attribute_error, value_error, type_error,
  if◌then◌else◌, ◌==◌, string_eq, nat_eq, leb, has_text, join, splitlines, rstrip, drop_first,
  drop_last,
}
use distributed_apps_platfor.Base.Exec.{Exec, pure, raise, lift, skip, ◌>>=◌, ◌>>◌}
use distributed_apps_platfor.Hosts.Prep.{Place, call, fill_lines}
use mathlib.Core.List.{◌++◌ as append}

-- `int(s)`, none where it raises, `('%s' % n).zfill(4)`, and the text of `int(get_param('LYDIAN_PORT'))`
pub record Numbers : Type 0 where
  pub int_of : String → Option ℤ
  pub zfilled : ℤ → String
  pub port_num : Result String

-- the text before the first blank or `>`, where there is one
until : String → Option String
until String.[] = none
until (String.◌∷◌ c s) =
    let rest = until s in
    if code c == 32 || code c == 62
    then some ""
    else elim rest [ none ↦ none | some t ↦ some (String.◌∷◌ c t) ]

-- the group `(.+?)` before `[ >]`: at least one character
group_of : String → Option String
group_of String.[] = none
group_of (String.◌∷◌ c s) = elim (until s) [ none ↦ none | some t ↦ some (String.◌∷◌ c t) ]

abbrev service_attr : String
service_attr = "service id="

-- `re.search("service id=(.+?)[ >].*", line).group(1)[1:-1]`, none where there is no match
unfoldable pub service_id : String → Option String
unfolding group_of until
service_id line = elim (find? line service_attr) [
  | none ↦ none
  | some at ↦ elim (group_of (slice line (at + len service_attr) (len line))) [
    | none ↦ none
    | some group ↦ some (drop_last (drop_first group))
  ]
]

abbrev pub leℤ : ℤ → ℤ → Bool
leℤ (pos a) (pos b) = leb a b
leℤ (negsuc a) (pos b) = true
leℤ (pos a) (negsuc b) = false
leℤ (negsuc a) (negsuc b) = leb b a

abbrev pub add_one : ℤ → ℤ
add_one (pos n) = pos (suc n)
add_one (negsuc zero) = pos 0
add_one (negsuc (suc n)) = negsuc n

-- `max(nums)`, which raises on no numbers
unfoldable pub max_of : List ℤ → Option ℤ
max_of [] = none
max_of (x ∷ xs) = elim (max_of xs) [ none ↦ some x | some y ↦ if leℤ x y then some y else some x ]

-- the lines with the lines of the rule before the first `</ConfigRoot>`; `index` raises without one
unfoldable pub insert_rule : List String → List String → Result (List String)
insert_rule fw_cfg [] = err value_error
insert_rule fw_cfg (line ∷ lines) =
    let rest = insert_rule fw_cfg lines in
    if line == "</ConfigRoot>"
    then ok (append fw_cfg (line ∷ lines))
    else elim rest [ err e ↦ err e | ok ls ↦ ok (line ∷ ls) ]

module _ {S : Type 0} (place : Place S) (numbers : Numbers) where
  -- the numbers in the lines; a line in which there is none is passed over
  unfoldable pub service_nums : List String → List ℤ
  service_nums [] = []
  service_nums (line ∷ lines) =
      let rest = service_nums lines in
      elim (service_id line) [
        | none ↦ rest
        | some text ↦ elim (numbers.int_of text) [ none ↦ rest | some n ↦ n ∷ rest ]
      ]

  -- the number of the new service, where one can be determined
  unfoldable pub service_num : Option String → Option ℤ
  service_num none = none
  service_num (some result) = elim (max_of (service_nums (splitlines result))) [
    | none ↦ none
    | some n ↦ some (add_one n)
  ]

  write_rule : String → ℤ → Exec S (Unit {0})
  write_rule xml_content n = do
    call place "cp /etc/vmware/firewall/service.xml /lydian/esx_fw.xml.bak"
    call place "chmod 644 /etc/vmware/firewall/service.xml"
    call place "chmod +t /etc/vmware/firewall/service.xml"
    template ← place.read_lines (join place.data_dir "esx_firewall.xml")
    numbered ←
        lift (fill_lines place (λ x. starts_with x "<service id") (numbers.zfilled n) template)
    port ← lift numbers.port_num
    fw_cfg ← lift (fill_lines place (has_text "<port>") port numbered)
    lines ← lift (insert_rule fw_cfg (splitlines xml_content))
    place.put_lines (map (λ line. rstrip line ++ "\n") lines) "/lydian/esx_fw.xml"
    call place "cp /lydian/esx_fw.xml /etc/vmware/firewall/service.xml"
    call place "chmod 444 /etc/vmware/firewall/service.xml"
    call place "chmod +t /etc/vmware/firewall/service.xml"
    call place "esxcli network firewall refresh"

  -- the number is looked for in a `try` that gives up on any error
  add_rule : String → Exec S (Unit {0})
  add_rule xml_content s =
      let (r, s') = place.req_call "grep \"service id=\" /etc/vmware/firewall/service.xml" none s in
      elim r [
        | err _ ↦ (ok tt, s')
        | ok result ↦ elim (service_num result) [
          | none ↦ (ok tt, s')
          | some n ↦ write_rule xml_content n s'
        ]
      ]

  unfoldable pub config_firewall : Exec S (Unit {0})
  unfolding add_rule write_rule
  config_firewall = do
    reply ← place.req_call "cat /etc/vmware/firewall/service.xml" none
    elim reply [
      | none ↦ raise type_error
      | some xml_content ↦ if has_text "lydian" xml_content then skip else add_rule xml_content
    ]
