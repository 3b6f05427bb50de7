-- ===== src/Http/Factory.antt =====
-- aufg2_3_http/http_server/src/response_factory.h and response_factory.cpp, over what the system says
-- of its files.
pub mod Headers
use rechnernetze.Base.{
  ℕ, ◌+◌, ◌-◌, Bool, true, false, List, [], ◌∷◌, ◌++◌, Option, none, some, codes, bytes_eq, length,
  replicate, if◌then◌else◌,
}
use rechnernetze.Process.{Bytes}
use rechnernetze.Http.Request.{HttpRequest, Method, no_method, get, post, put, get_method, get_uri}
use rechnernetze.Http.Response.{
  Status, success, bad_request, method_not_allowed, HttpResponse, crlf, empty_response, add_header,
  set_content, set_status,
}

-- An entry of a directory, with the text of its time, or of the error in place of it.
pub record Entry : Type 0 where
  pub filename : Bytes
  pub is_folder : Bool
  pub file_size : ℕ
  pub last_modified : Bytes

-- What std::filesystem and fmt say: whether a path is a directory, or exists, the bytes of a file, the
-- entries of a directory, the joining of paths, the extension of a path (empty if there is none), and
-- the text of a size.
pub record Disk : Type 0 where
  pub is_directory : Bytes → Bool
  pub exists : Bytes → Bool
  pub read_file : Bytes → Bytes
  pub directory_iterator : Bytes → List Entry
  pub join : Bytes → Bytes → Bytes
  pub extension : Bytes → Bytes
  pub file_size_to_str : ℕ → Bytes

-- The content types by extension, and the one for all others.
unfoldable pub content_type_map : List (Bytes × Bytes)
content_type_map =
    (codes ".txt", codes "text/plain")
    ∷ (codes ".html", codes "text/html")
    ∷ (codes ".xml", codes "text/xml")
    ∷ (codes ".jpeg", codes "image/jpeg")
    ∷ (codes ".png", codes "image/png")
    ∷ (codes ".svg", codes "image/svg+xml")
    ∷ (codes ".webp", codes "image/webp")
    ∷ (codes ".mp4", codes "video/mp4")
    ∷ (codes ".pdf", codes "application/pdf")
    ∷ []

unfoldable pub find_type : Bytes → List (Bytes × Bytes) → Bytes
find_type extension [] = codes "text/plain"
find_type extension ((key, content_type) ∷ rest) =
    let later = find_type extension rest in if bytes_eq key extension then content_type else later

-- A field of the table, filled with spaces behind or before.
abbrev pub left_aligned : ℕ → Bytes → Bytes
left_aligned n text = text ++ replicate (n - length text) 32

abbrev pub right_aligned : ℕ → Bytes → Bytes
right_aligned n text = replicate (n - length text) 32 ++ text

-- "| {:<50} | {:>10} | {:<20}|" with the line feed.
unfoldable pub table_row : Bytes → Bytes → Bytes → Bytes
table_row name size modified =
    codes "| "
    ++ (left_aligned 50 name
        ++ (codes " | "
            ++ (right_aligned 10 size
                ++ (codes " | " ++ (left_aligned 20 modified ++ (124 ∷ 10 ∷ []))))))

unfoldable pub separator : Bytes
separator = 124 ∷ (replicate (1 + 50 + 3 + 10 + 3 + 20) 45 ++ (124 ∷ 10 ∷ []))

unfoldable pub create_from_plain_text : Status → Bytes → HttpResponse
create_from_plain_text status text = set_status status (
    set_content (text ++ crlf)
      (add_header (codes "Content-Type") (codes "text/plain") empty_response))

abbrev pub missing_reason : Bytes → Bytes
missing_reason uri =
    codes "Requested file " ++ (uri ++ codes " does not exist. Please provide a correct file path")

abbrev pub method_reason : Bytes
method_reason = codes "Sorry, this method is not allowed. Currently only GET is supported."

module _ (disk : Disk) where
  unfoldable pub get_content_type : Bytes → Bytes
  unfolding find_type content_type_map
  get_content_type file_path = find_type (disk.extension file_path) content_type_map

  unfoldable pub create_from_file : Bytes → HttpResponse
  create_from_file file_path = set_status success (
      set_content (disk.read_file file_path)
        (add_header (codes "Content-Type") (get_content_type file_path) empty_response))

  unfoldable pub entry_row : Entry → Bytes
  entry_row e =
      table_row (e.filename ++ (if e.is_folder then codes "/" else []))
        (if e.is_folder then [] else disk.file_size_to_str e.file_size) e.last_modified

  unfoldable pub rows : List Entry → Bytes
  unfolding entry_row
  rows [] = []
  rows (e ∷ entries) = entry_row e ++ rows entries

  unfoldable pub get_plain_text_file_listing : Bytes → Bytes
  unfolding rows
  get_plain_text_file_listing dir_path =
      separator
      ++ (table_row (codes "filename") (codes "size") (codes "last modified")
          ++ (separator ++ (rows (disk.directory_iterator dir_path) ++ separator)))

  -- A response with the text for the log.
  unfoldable pub create_from_directory : Bytes → Bytes → HttpResponse × Bytes
  unfolding create_from_file get_plain_text_file_listing
  create_from_directory dir_path uri =
      let index_html_path = disk.join dir_path (codes "index.html") in
      if disk.exists index_html_path
      then (create_from_file index_html_path, codes "file " ++ index_html_path)
      else (
        set_content
            (codes "Directory content of '"
              ++ (uri ++ (codes "': \n" ++ get_plain_text_file_listing dir_path)))
            (add_header (codes "Content-Type") (codes "text/plain")
              (set_status success empty_response)),
        codes "directory listing " ++ dir_path,
      )

  -- For a GET request.
  unfoldable pub create_for_path : Bytes → Bytes → HttpResponse × Bytes
  unfolding create_from_directory create_from_file create_from_plain_text
  create_for_path path uri =
      if disk.is_directory path
      then create_from_directory path uri
      else if disk.exists path
      then (create_from_file path, codes "file " ++ path)
      else (create_from_plain_text bad_request (missing_reason uri), missing_reason uri)

  unfoldable pub not_allowed : HttpResponse × Bytes
  unfolding create_from_plain_text
  not_allowed = (create_from_plain_text method_not_allowed method_reason, method_reason)

  unfoldable pub create_for_method : Method → Bytes → Bytes → HttpResponse × Bytes
  unfolding create_for_path not_allowed
  create_for_method get root uri = create_for_path (root ++ uri) uri
  create_for_method post root uri = not_allowed
  create_for_method put root uri = not_allowed
  create_for_method no_method root uri = not_allowed

  -- ResponseFactory::create
  unfoldable pub create : HttpRequest → Bytes → HttpResponse × Bytes
  unfolding create_for_method
  create request documents_root =
      create_for_method (get_method request) documents_root (get_uri request)
