-- ===== src/Http/Snatch/Url/Examples.antt =====
-- URLs that the client takes apart.
use rechnernetze.Base.{◌≡◌, refl, ◌∷◌, ◌++◌, none, some, codes, bytes_eq}
use rechnernetze.Process.{ok, stop, thrown}
use rechnernetze.Cli.{stoi, skip_space, front_digits}
use rechnernetze.Http.Request.{all_dots}
use rechnernetze.Http.Snatch.Url.{
  split_at, match_host, match_here, match_url, span_digits, match_port, match_localhost,
  behind_last_slash, port_of, parse_localhost, parse,
}
use rechnernetze.Http.Snatch.Url.Parts.{parse-http}

parse-http_example :
    parse (codes "http://" ++ (codes "h" ++ (b'.' ∷ (codes "de" ++ (b'/' ∷ codes "a/b.c")))))
    ≡ ok (record {
      host = codes "h" ++ (b'.' ∷ codes "de");
      file_path_name = codes "a/b.c";
      file_name = codes "b.c";
      port = none;
    })
unfolding all_dots bytes_eq
parse-http_example =
    parse-http (codes "h") (codes "de") (codes "a/b.c") (codes "/a") (codes "b.c") (refl, tt) refl
      (refl, (refl, tt)) refl refl (refl, (refl, (refl, tt)))

local_port :
    parse (codes "localhost:8080/a")
    ≡ ok (record {
      host = codes "localhost";
      file_path_name = codes "a";
      file_name = codes "a";
      port = some 8080;
    })
unfolding parse match_url match_here match_host split_at match_localhost match_port span_digits
    behind_last_slash parse_localhost port_of stoi skip_space front_digits bytes_eq all_dots
local_port = refl

-- A folder with a dot in its name, on the local host, ends up in the host's name.
dotted_folder :
    parse (codes "localhost/a.b/c")
    ≡ ok (record {
      host = codes "localhost/a.b";
      file_path_name = codes "c";
      file_name = codes "c";
      port = none;
    })
unfolding parse match_url match_here match_host split_at behind_last_slash bytes_eq all_dots
dotted_folder = refl

no_folder : parse (codes "h.de") ≡ stop thrown
unfolding parse match_url match_here match_host split_at match_localhost behind_last_slash
    parse_localhost bytes_eq all_dots
no_folder = refl
