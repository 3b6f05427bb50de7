-- ===== src/Http/Factory/Headers.antt =====
-- The headers of the responses that the factory makes.
use rechnernetze.Base.{
  ◌≡◌, refl, true, false, List, [], ◌∷◌, ◌++◌, All, codes, bytes_eq, Bool-cases, inl, inr,
}
use rechnernetze.Process.{Bytes}
use rechnernetze.Http.Request.{HttpRequest, Method, no_method, get, post, put}
use rechnernetze.Http.Response.{Status, bad_request, method_not_allowed, empty_response, add_header}
use rechnernetze.Http.Response.Parsing.{HasLines, is_line, no_return, add_header-HasLines}
use rechnernetze.Http.Factory.{
  Disk, missing_reason, method_reason, content_type_map, find_type, get_content_type,
  create_from_plain_text, create_from_file, create_from_directory, create_for_path, not_allowed,
  create_for_method, create,
}

find_type-no_return :
    (extension : Bytes) (types : List (Bytes × Bytes))
    → All (λ entry. no_return entry.1 ≡ true) types
    → no_return (find_type extension types) ≡ true
unfolding find_type no_return
find_type-no_return extension [] h = refl
find_type-no_return extension ((key, content_type) ∷ rest) (h, hs) =
    elim (Bool-cases (bytes_eq key extension)) [
      | inl same ↦ rw same h
      | inr other ↦ rw other (find_type-no_return extension rest hs)
    ]

content_type_map-no_return : All (λ entry. no_return entry.1 ≡ true) content_type_map
unfolding content_type_map no_return
content_type_map-no_return =
    (refl, (refl, (refl, (refl, (refl, (refl, (refl, (refl, (refl, tt)))))))))

-- A response whose only field is the content type.
typed-HasLines :
    (s : Status) (content content_type : Bytes)
    → no_return content_type ≡ true
    → HasLines (record {
      status = s;
      header = (add_header (codes "Content-Type") content_type empty_response).header;
      payload = content;
    })
unfolding is_line no_return
typed-HasLines s content content_type h =
    let v =
      add_header-HasLines (codes "Content-Type") content_type empty_response refl h
        (record { fields = []; are_lines = tt; printed = refl }) in
    record { fields = v.fields; are_lines = v.are_lines; printed = v.printed }

pub create_from_plain_text-HasLines :
    (s : Status) (text : Bytes) → HasLines (create_from_plain_text s text)
unfolding create_from_plain_text no_return
create_from_plain_text-HasLines s text = typed-HasLines s _ (codes "text/plain") refl

module _ (disk : Disk) where
  create_from_file-HasLines : (path : Bytes) → HasLines (create_from_file disk path)
  unfolding create_from_file get_content_type
  create_from_file-HasLines path =
      typed-HasLines _ _ _
        (find_type-no_return (disk.extension path) content_type_map content_type_map-no_return)

  create_from_directory-HasLines :
      (path uri : Bytes) → HasLines (create_from_directory disk path uri).0
  unfolding create_from_directory no_return add_header
  create_from_directory-HasLines path uri =
      elim (Bool-cases (disk.exists (disk.join path (codes "index.html")))) [
        | inl there ↦ rw (there, create_from_directory) (create_from_file-HasLines _)
        | inr missing ↦
            rw (missing, create_from_directory) (typed-HasLines _ _ (codes "text/plain") refl)
      ]

  create_for_path-HasLines : (path uri : Bytes) → HasLines (create_for_path disk path uri).0
  unfolding create_for_path
  create_for_path-HasLines path uri = elim (Bool-cases (disk.is_directory path)) [
    | inl folder ↦ rw (folder, create_for_path) (create_from_directory-HasLines path uri)
    | inr other ↦ elim (Bool-cases (disk.exists path)) [
      | inl there ↦ rw (other, there, create_for_path) (create_from_file-HasLines path)
      | inr missing ↦
          rw (other, missing, create_for_path)
            (create_from_plain_text-HasLines bad_request (missing_reason uri))
    ]
  ]

  create_for_method-HasLines :
      (m : Method) (root uri : Bytes) → HasLines (create_for_method disk m root uri).0
  unfolding create_for_method not_allowed
  create_for_method-HasLines get root uri = create_for_path-HasLines (root ++ uri) uri
  create_for_method-HasLines post root uri =
      create_from_plain_text-HasLines method_not_allowed method_reason
  create_for_method-HasLines put root uri =
      create_from_plain_text-HasLines method_not_allowed method_reason
  create_for_method-HasLines no_method root uri =
      create_from_plain_text-HasLines method_not_allowed method_reason

  -- Whatever the request asks for, the header of the response consists of lines.
  pub create-HasLines :
      (request : HttpRequest) (root : Bytes) → HasLines (create disk request root).0
  unfolding create
  create-HasLines request root = create_for_method-HasLines request.method root request.uri

  -- For a GET of a file that is there the payload is what the file holds.
  pub create-payload :
      (request : HttpRequest) (root : Bytes)
      → request.method ≡ get
      → disk.is_directory (root ++ request.uri) ≡ false
      → disk.exists (root ++ request.uri) ≡ true
      → (create disk request root).0.payload ≡ disk.read_file (root ++ request.uri)
  unfolding create create_for_method create_for_path create_from_file
  create-payload request root m folder there =
      rw (m, create_for_method) (rw (folder, there, create_for_path))
