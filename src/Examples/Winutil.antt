-- ===== src/Examples/Winutil.antt =====
-- Command lines of src/winutil.rs.
use yj_sandbox.Base.{◌≡◌, refl, List, [], ◌∷◌}
use yj_sandbox.Base.Text.{Text, codes}
use yj_sandbox.Winutil.{argv_to_command_line}
use yj_sandbox.Winutil.Crt.{command_line_to_argv}
use yj_sandbox.Winutil.RoundTrip.{argv-round_trip}

abbrev argv : List Text
argv = codes "a b" ∷ codes "" ∷ codes "x\\" ∷ codes "q \"\\" ∷ codes "z" ∷ []

argv_to_command_line_test : argv_to_command_line argv ≡ codes "\"a b\" \"\" x\\ \"q \\\"\\\\\" z"
unfolding argv_to_command_line
argv_to_command_line_test = refl

argv-round_trip_example : command_line_to_argv (argv_to_command_line argv) ≡ argv
argv-round_trip_example = argv-round_trip argv
