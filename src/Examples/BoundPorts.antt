-- ===== src/Examples/BoundPorts.antt =====
-- The listening ports of a host with two servers.
use dorian_back_end.Prelude.{◌≡◌, refl, pos, List, [], ◌∷◌, any, map, All, ℤ}
use dorian_back_end.Text.{Text, codes, split}
use dorian_back_end.Remotesvc.BoundPorts
use dorian_back_end.Remotesvc.BoundPorts.{BoundPort, parse_bound_ports_output}
use dorian_back_end.Remotesvc.BoundPorts.Sorted.{IsListening, Rising, parse_bound_ports_output_ok}
use dorian_back_end.Remotesvc.BoundPorts.Listed.{
  is_listed, describes, records, is_listed-parse_bound_ports_output,
}

-- Port 80 comes twice, and the second time with its process.
abbrev output : Text
output =
    codes
      "PORT=443\nADDR=0.0.0.0\n---\nPORT=80\n---\nPORT=0\n---\nPORT=80\nPROC=nginx\n---\nPORT=22"

abbrev ports : List ℤ
ports = map (λ (entry : BoundPort). entry.port) (parse_bound_ports_output output)

ports_sorted : ports ≡ pos 22 ∷ pos 80 ∷ pos 443 ∷ []
unfolding parse_bound_ports_output BoundPorts.sort_from BoundPorts.read_lines split BoundPorts.flush
    BoundPorts.read_line dorian_back_end.Text.◌is◌ dorian_back_end.Text.trim_space
    dorian_back_end.Text.split2 BoundPorts.entry_of dorian_back_end.Text.parse_int BoundPorts.field
    BoundPorts.set_field BoundPorts.remember BoundPorts.sweep
ports_sorted = refl

processes :
    map (λ (entry : BoundPort). entry.process) (parse_bound_ports_output output)
    ≡ [] ∷ codes "nginx" ∷ [] ∷ []
unfolding parse_bound_ports_output BoundPorts.sort_from BoundPorts.read_lines split BoundPorts.flush
    BoundPorts.read_line dorian_back_end.Text.◌is◌ dorian_back_end.Text.trim_space
    dorian_back_end.Text.split2 BoundPorts.entry_of dorian_back_end.Text.parse_int BoundPorts.field
    BoundPorts.set_field BoundPorts.remember BoundPorts.sweep
processes = refl

parse_bound_ports_output_ok_example :
    All IsListening (parse_bound_ports_output output) × Rising (parse_bound_ports_output output)
parse_bound_ports_output_ok_example = parse_bound_ports_output_ok output

is_listed-parse_bound_ports_output_example :
    is_listed (pos 80) (parse_bound_ports_output output)
    ≡ any (describes (pos 80)) (records [] (split output b'\n'))
is_listed-parse_bound_ports_output_example = is_listed-parse_bound_ports_output output (pos 80)
