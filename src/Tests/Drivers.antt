-- ===== src/Tests/Drivers.antt =====
-- Runs of the tests on driver names and paths.
use linbo_docker.Base.{◌≡◌, refl, [], ok, err}
use linbo_docker.Text.{codes}
use linbo_docker.Driver.{traversal, sanitize_name, sanitize_relative_path}
use linbo_docker.Driver.Accepted.{IsBelow, sanitize_relative_path-IsBelow}

path_cleaned :
    sanitize_relative_path (codes " net//e1000/./x.inf/ ") ≡ ok (codes "net/e1000/./x.inf")
unfolding sanitize_relative_path
path_cleaned = refl

path_refused : sanitize_relative_path (codes "net/../..") ≡ err traversal
unfolding sanitize_relative_path
path_refused = refl

-- the test for an empty path stands in front of `trim`
blank_path : sanitize_relative_path (codes "  ") ≡ ok []
unfolding sanitize_relative_path
blank_path = refl

name_cleaned : sanitize_name (codes " HP_640-G4 ") ≡ ok (codes "HP_640-G4")
unfolding sanitize_name
name_cleaned = refl

sanitize_relative_path-IsBelow_example : IsBelow (codes "net/e1000/./x.inf")
sanitize_relative_path-IsBelow_example =
    sanitize_relative_path-IsBelow (codes " net//e1000/./x.inf/ ") path_cleaned
