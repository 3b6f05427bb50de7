-- ===== src/Http/Snatch/Url/Parts.antt =====
-- The parts of a URL that the client finds.
use rechnernetze.Base.{
  ℕ, ◌≡◌, ◌∙◌, refl, ap, true, false, [], ◌∷◌, ◌++◌, none, some, arith, codes, bytes_eq, take, ◌==◌,
  ==_refl, All,
}
use rechnernetze.Process.{Bytes, ok}
use rechnernetze.Http.Request.{all_dots}
use rechnernetze.Http.Snatch.Url.{
  split_at, match_host, match_here, match_url, behind_last_slash, parse,
}

-- A text without a character.
abbrev pub Lacks : ℕ → Bytes → Type 0
Lacks c s = All (λ d. (d == c) ≡ false) s

pub split_at-append :
    (c : ℕ) (s rest : Bytes) → Lacks c s → split_at c (s ++ (c ∷ rest)) ≡ some (s, rest)
unfolding split_at
split_at-append c [] rest h = rw (==_refl c) refl
split_at-append c (d ∷ s) rest (other, h) = rw (other, split_at-append c s rest h) refl

pub match_host-append :
    (name domain path : Bytes)
    → Lacks b'.' name
    → Lacks b'/' domain
    → all_dots path ≡ true
    → match_host (name ++ (b'.' ∷ (domain ++ (b'/' ∷ path)))) ≡ some (name ++ (b'.' ∷ domain), path)
unfolding match_host
match_host-append name domain path h k p =
    rw
      (
        match_host,
        split_at-append b'.' name (domain ++ (b'/' ∷ path)) h,
        split_at-append b'/' domain path k,
        p,
      )
      refl

-- The text begins with `www.`.
www_prefix :
    (name rest : Bytes)
    → Lacks b'.' name
    → bytes_eq name (codes "www") ≡ false
    → bytes_eq (take 4 (name ++ (b'.' ∷ rest))) (codes "www.") ≡ false
unfolding bytes_eq
www_prefix [] rest h n = refl
www_prefix (a ∷ []) rest h n = ground arith
www_prefix (a ∷ b ∷ []) rest h n = ground arith
www_prefix (a ∷ b ∷ c ∷ []) rest h n = ground arith
www_prefix (a ∷ b ∷ c ∷ d ∷ name) rest h n = ground arith

behind_last_slash_none : (name : Bytes) → Lacks b'/' name → behind_last_slash name ≡ none
unfolding behind_last_slash
behind_last_slash_none [] h = refl
behind_last_slash_none (c ∷ name) (other, h) = rw (behind_last_slash_none name h, other) refl

pub behind_last_slash-append :
    (s name : Bytes) → Lacks b'/' name → behind_last_slash (s ++ (b'/' ∷ name)) ≡ some name
unfolding behind_last_slash
behind_last_slash-append [] name h = rw (behind_last_slash_none name h) refl
behind_last_slash-append (c ∷ s) name h = rw (behind_last_slash-append s name h) refl

behind_last_slash_later :
    (s text : Bytes) {name : Bytes}
    → behind_last_slash text ≡ some name
    → behind_last_slash (s ++ text) ≡ some name
unfolding behind_last_slash
behind_last_slash_later [] text e = e
behind_last_slash_later (c ∷ s) text e = rw (behind_last_slash_later s text e) refl

match_here-http :
    (name domain path : Bytes)
    → Lacks b'.' name
    → bytes_eq name (codes "www") ≡ false
    → Lacks b'/' domain
    → all_dots path ≡ true
    → match_here (codes "http://" ++ (name ++ (b'.' ∷ (domain ++ (b'/' ∷ path)))))
      ≡ some (name ++ (b'.' ∷ domain), path)
unfolding match_here bytes_eq
match_here-http name domain path h w k p =
    rw
      (
        match_here,
        www_prefix name (domain ++ (b'/' ∷ path)) h w,
        match_host-append name domain path h k p,
      )
      refl

-- A URL `http://name.domain/path` whose name has no dot and is not `www`, and whose domain has no slash,
-- is taken apart into the host `name.domain`, the path, and what stands behind the last slash.
pub parse-http :
    (name domain path front file : Bytes)
    → Lacks b'.' name
    → bytes_eq name (codes "www") ≡ false
    → Lacks b'/' domain
    → all_dots path ≡ true
    → b'/' ∷ path ≡ front ++ (b'/' ∷ file)
    → Lacks b'/' file
    → parse (codes "http://" ++ (name ++ (b'.' ∷ (domain ++ (b'/' ∷ path)))))
      ≡ ok (record {
        host = name ++ (b'.' ∷ domain);
        file_path_name = path;
        file_name = file;
        port = none;
      })
unfolding parse match_url
parse-http name domain path front file h w k p e f =
    let url = codes "http://" ++ (name ++ (b'.' ∷ (domain ++ (b'/' ∷ path)))) in
    let last : behind_last_slash (b'/' ∷ path) ≡ some file =
      ap behind_last_slash e ∙ behind_last_slash-append front file f in
    let named : behind_last_slash url ≡ some file =
      behind_last_slash_later (codes "http://") (name ++ (b'.' ∷ (domain ++ (b'/' ∷ path)))) (
        behind_last_slash_later name (b'.' ∷ (domain ++ (b'/' ∷ path)))
          (behind_last_slash_later (b'.' ∷ domain) (b'/' ∷ path) last)) in
    rw (parse, match_url, match_here-http name domain path h w k p, named) refl
