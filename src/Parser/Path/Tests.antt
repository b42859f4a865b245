-- ===== src/Parser/Path/Tests.antt =====
-- The table of parser/grpc_test.go, and the laws at concrete paths.
use g_rpcat.Base.{◌≡◌, refl, ◌↔◌, arith, ok, err}
use g_rpcat.Base.Texts.{Text, codes, trim_prefix, cut, contains}
use g_rpcat.Parser.Path.{invalid_path, parse_grpc_path, format_grpc_path}
use std.Path.{transport}
use g_rpcat.Parser.Path.Calls.{call_path}
use g_rpcat.Parser.Path.Laws.{IsName, IsPathOf, parse_grpc_path_iff}

abbrev greeter : Text
greeter = codes "helloworld.Greeter"

abbrev say_hello : Text
say_hello = codes "SayHello"

path_tests :
    (parse_grpc_path (codes "/helloworld.Greeter/SayHello") ≡ ok (greeter, say_hello))
    × (parse_grpc_path (codes "a/b") ≡ ok (codes "a", codes "b"))
    × (parse_grpc_path (codes "/a/b/c") ≡ err (invalid_path (codes "a/b/c")))
    × (parse_grpc_path (codes "/a") ≡ err (invalid_path (codes "a")))
    × (parse_grpc_path (codes "") ≡ err (invalid_path (codes "")))
    × (parse_grpc_path (codes "//") ≡ err (invalid_path (codes "/")))
    × (parse_grpc_path (codes "/a/") ≡ err (invalid_path (codes "a/")))
    × (parse_grpc_path (codes "//b") ≡ err (invalid_path (codes "/b")))
unfolding parse_grpc_path trim_prefix cut contains
path_tests = (refl, refl, refl, refl, refl, refl, refl, refl)

parse_grpc_path_iff_example :
    (parse_grpc_path (codes "a/b") ≡ ok (codes "a", codes "b"))
    ↔ (IsName (codes "a") × IsName (codes "b") × IsPathOf (codes "a/b") (codes "a") (codes "b"))
parse_grpc_path_iff_example = parse_grpc_path_iff (codes "a/b") (codes "a") (codes "b")

names : IsName greeter × IsName say_hello
names = ground arith

-- Transport along the equality of calls and paths runs.
there_and_back :
    ((transport call_path.0 ((greeter, say_hello), names)).0 ≡ codes "/helloworld.Greeter/SayHello")
unfolding format_grpc_path
there_and_back = call_path.1 ((greeter, say_hello), names)
