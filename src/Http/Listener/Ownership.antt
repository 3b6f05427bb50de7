-- ===== src/Http/Listener/Ownership.antt =====
-- That the server's connections neither lose nor free twice what they hold.
use rechnernetze.Base.{
  ℕ, suc, ◌<◌, ◌≡◌, refl, subst, Bool, false, List, [], ◌∷◌, ◌++◌, arith, All, contains, ==_refl,
  Distinct, Distinct-front, Distinct-rest, contains_above, contains-append,
}
use rechnernetze.Process.{ok, of_ok}
use rechnernetze.Http.Address.{Block, new_block, World, allocated, release, destroy_origin, without}
use rechnernetze.Http.Listener.{
  opened, peer, refused, connection, after_refusal, accept_next_connection, disconnect,
}
use rechnernetze.Http.Listener.Resources.{
  Held, endpoint, Run, begun, accepted, not_accepted, ended, blocks, files, live_blocks,
  files-append, blocks-append, without_file-middle, without-middle,
}

-- The newest block is released first.
pub release_newest :
    (n k : ℕ) (blocks : List Block) (files : List ℕ)
    → release (new_block n) (record { live = new_block n ∷ blocks; next = k; open_files = files })
      ≡ ok (record { live = blocks; next = k; open_files = files })
unfolding release without
release_newest n k blocks files = rw (release, without, ==_refl n) refl

-- The process holds just what its connections hold.
pub record Owned (w : World) (cs : List Held) (v : World) : Type 0 where
  pub live : v.live ≡ live_blocks cs ++ w.live
  pub open_files : v.open_files ≡ files cs ++ w.open_files
  pub blocks_differ : Distinct (blocks cs)
  pub files_differ : Distinct (files cs)
  pub below : All (λ n. n < v.next) (blocks cs)

All-mono : (n : ℕ) (ns : List ℕ) → All (λ m. m < n) ns → All (λ m. m < suc n) ns
All-mono n [] h = tt
All-mono n (m ∷ ns) (less, h) = (omega arith, All-mono n ns h)

accepted-Owned :
    {w v v' : World} {cs : List Held} (h : Held)
    → Owned w cs v
    → contains h.file v.open_files ≡ false
    → accept_next_connection (peer h.file h.sockaddr h.socklen) v ≡ ok (connection (endpoint h), v')
    → Owned w (h ∷ cs) v'
unfolding accept_next_connection
accepted-Owned {w} {v} {v'} {cs} h owned fresh e =
    let same : h.block ≡ v.next = cc in
    let after : opened h.file (allocated new_block v) ≡ v' = cc in
    subst (Owned w (h ∷ cs)) after (record {
      live = rw (same, owned.live) refl;
      open_files = rw owned.open_files refl;
      blocks_differ =
          (rw same (contains_above v.next (blocks cs) owned.below), owned.blocks_differ);
      files_differ = (
        ground (arith, owned.open_files, contains-append h.file (files cs) w.open_files),
        owned.files_differ,
      );
      below = (omega arith, All-mono v.next (blocks cs) owned.below);
    })

-- A refusal frees the block at once.
accept_refused :
    (einval : Bool) (v : World)
    → accept_next_connection (refused einval) v
      ≡ ok (after_refusal einval, record v { next = suc v.next })
unfolding accept_next_connection
accept_refused einval v = rw (release_newest v.next (suc v.next) v.live v.open_files) refl

refused-Owned :
    (w v v' : World) (cs : List Held) (einval : Bool)
    → Owned w cs v
    → accept_next_connection (refused einval) v ≡ ok (after_refusal einval, v')
    → Owned w cs v'
refused-Owned w v v' cs einval owned e =
    of_ok (λ r. Owned w cs r.1) (accept_refused einval v) e
      (record {
        live = owned.live;
        open_files = owned.open_files;
        blocks_differ = owned.blocks_differ;
        files_differ = owned.files_differ;
        below = All-mono v.next (blocks cs) owned.below;
      })

-- A connection that ends gives back just its own block and descriptor.
abbrev after_end : World → World → List Held → World
after_end w v cs = record v {
  live = live_blocks cs ++ w.live;
  open_files = files cs ++ w.open_files;
}

pub disconnect-Owned :
    (w v : World) (front : List Held) (h : Held) (back : List Held)
    → Owned w (front ++ (h ∷ back)) v
    → disconnect (endpoint h) v ≡ ok (after_end w v (front ++ back))
unfolding disconnect destroy_origin release
disconnect-Owned w v front h back owned =
    rw
      (
        owned.live,
        release,
        without-middle front back h w.live (
            Distinct-front h.block (blocks front) (blocks back)
              (subst Distinct (blocks-append front (h ∷ back)) owned.blocks_differ)),
        owned.open_files,
        without_file-middle front back h w.open_files (
            Distinct-front h.file (files front) (files back)
              (subst Distinct (files-append front (h ∷ back)) owned.files_differ)),
      )
      refl

All-rest :
    (n : ℕ) (front : List Held) (h : Held) (back : List Held)
    → All (λ m. m < n) (blocks (front ++ (h ∷ back)))
    → All (λ m. m < n) (blocks (front ++ back))
All-rest n [] h back (less, all) = all
All-rest n (g ∷ front) h back (less, all) = (less, All-rest n front h back all)

ended-Owned :
    (w v v' : World) (front : List Held) (h : Held) (back : List Held)
    → Owned w (front ++ (h ∷ back)) v
    → disconnect (endpoint h) v ≡ ok v'
    → Owned w (front ++ back) v'
ended-Owned w v v' front h back owned e =
    of_ok (Owned w (front ++ back)) (disconnect-Owned w v front h back owned) e (record {
      live = refl;
      open_files = refl;
      blocks_differ = rw (blocks-append front back) (
          Distinct-rest h.block (blocks front) (blocks back)
            (subst Distinct (blocks-append front (h ∷ back)) owned.blocks_differ));
      files_differ = rw (files-append front back) (
          Distinct-rest h.file (files front) (files back)
            (subst Distinct (files-append front (h ∷ back)) owned.files_differ));
      below = All-rest v.next front h back owned.below;
    })

pub Run-Owned : {w : World} {cs : List Held} {v : World} → Run w cs v → Owned w cs v
Run-Owned begun = record {
  live = refl;
  open_files = refl;
  blocks_differ = tt;
  files_differ = tt;
  below = tt;
}
Run-Owned (accepted h run fresh e) = accepted-Owned h (Run-Owned run) fresh e
Run-Owned {w} {cs} {v = v'} (not_accepted {v} einval run e) =
    refused-Owned w v v' cs einval (Run-Owned run) e
Run-Owned {w} {v = v'} (ended front h back {v} run e) =
    ended-Owned w v v' front h back (Run-Owned run) e

-- Connections begin, are refused and end in any order: each of them can end without an invalid free,
-- and once all have ended the process holds the memory and the descriptors that it held before.
pub Run-disconnect :
    {w : World} {cs : List Held} {v : World}
    → Run w cs v
    → ((front : List Held) (h : Held) (back : List Held)
        → cs ≡ front ++ (h ∷ back)
        → (v' : World) × (disconnect (endpoint h) v ≡ ok v'))
      × (cs ≡ [] → (v.live ≡ w.live) × (v.open_files ≡ w.open_files))
Run-disconnect {w} {cs} {v} run =
    let owned = Run-Owned run in
    (
      λ front h back e. (_, disconnect-Owned w v front h back (subst (λ cs. Owned w cs v) e owned)),
      λ e.
          let all_ended : Owned w [] v = subst (λ cs. Owned w cs v) e owned in
          (all_ended.live, all_ended.open_files),
    )
