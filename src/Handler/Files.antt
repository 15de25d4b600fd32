-- ===== src/Handler/Files.antt =====
-- `get_content_type` of server/content_type.cpp.
use epoll_gateway.Base.{
  true, [], ◌∷◌, ◌++◌, Option, none, some, ◌≡◌, refl, ap, arith, ◌==◌, if◌then◌else◌,
}
use epoll_gateway.Base.Bytes.{Bytes, ascii}
use epoll_gateway.Base.Decimal.{free_of}
use epoll_gateway.Base.Table.{Table, lookup, get_or}

abbrev pub mime_map : Table Bytes
mime_map =
    (ascii ".html", ascii "text/html")
    ∷ (ascii ".htm", ascii "text/html")
    ∷ (ascii ".css", ascii "text/css")
    ∷ (ascii ".js", ascii "application/javascript")
    ∷ (ascii ".json", ascii "application/json")
    ∷ (ascii ".png", ascii "image/png")
    ∷ (ascii ".jpg", ascii "image/jpeg")
    ∷ (ascii ".jpeg", ascii "image/jpeg")
    ∷ (ascii ".gif", ascii "image/gif")
    ∷ (ascii ".svg", ascii "image/svg+xml")
    ∷ (ascii ".ico", ascii "image/x-icon")
    ∷ (ascii ".txt", ascii "text/plain")
    ∷ (ascii ".xml", ascii "application/xml")
    ∷ (ascii ".pdf", ascii "application/pdf")
    ∷ (ascii ".zip", ascii "application/zip")
    ∷ (ascii ".mp3", ascii "audio/mpeg")
    ∷ (ascii ".mp4", ascii "video/mp4")
    ∷ []

-- `rfind('.')`, with what stands from there on.
unfoldable pub extension : Bytes → Option Bytes
extension [] = none
extension (c ∷ cs) = elim (extension cs) [
  | some ext ↦ some ext
  | none ↦ if c == b'.' then some (c ∷ cs) else none
]

unfoldable pub content_type_of : Option Bytes → Bytes
content_type_of none = ascii "application/octet-stream"
content_type_of (some ext) = get_or (ascii "application/octet-stream") (lookup ext mime_map)

unfoldable pub get_content_type : Bytes → Bytes
get_content_type path = content_type_of (extension path)

extension-free_of : (s : Bytes) → free_of b'.' s ≡ true → extension s ≡ none
unfolding extension
extension-free_of [] h = refl
extension-free_of (c ∷ cs) h = ground (arith, extension-free_of cs)

extension-append :
    (stem ext : Bytes)
    → free_of b'.' ext ≡ true
    → extension (stem ++ (b'.' ∷ ext)) ≡ some (b'.' ∷ ext)
unfolding extension
extension-append [] ext h = rw (extension-free_of ext h) refl
extension-append (c ∷ cs) ext h = rw (extension-append cs ext h) refl

-- The content type depends on what stands behind the last dot of the path only.
pub get_content_type_lem :
    (stem ext : Bytes)
    → free_of b'.' ext ≡ true
    → get_content_type (stem ++ (b'.' ∷ ext))
      ≡ get_or (ascii "application/octet-stream") (lookup (b'.' ∷ ext) mime_map)
unfolding get_content_type content_type_of
get_content_type_lem stem ext h = ap content_type_of (extension-append stem ext h)
