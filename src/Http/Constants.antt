-- ===== src/Http/Constants.antt =====
-- http/constants.h.
use dytech.Prelude.{Bytes}
use dytech.Text.{codes}

abbrev pub k_cgi_folder_name : Bytes
k_cgi_folder_name = codes "cgi-bin"

abbrev pub k_cgi_prefix : Bytes
k_cgi_prefix = codes "cgi_temp"

abbrev pub k_underscore : Bytes
k_underscore = codes "_"

abbrev pub k_separator : Bytes
k_separator = codes "&"

abbrev pub k_space : Bytes
k_space = codes " "

abbrev pub k_dot : Bytes
k_dot = codes "."

abbrev pub k_crlf : Bytes
k_crlf = codes "\r\n"

abbrev pub k_colon : Bytes
k_colon = codes ":"

abbrev pub k_default_route : Bytes
k_default_route = codes "index.html"

abbrev pub k_header_server : Bytes
k_header_server = codes "Server"

abbrev pub k_server_name : Bytes
k_server_name = codes "longlp/1.0"

abbrev pub k_header_content_length : Bytes
k_header_content_length = codes "Content-Length"

abbrev pub k_header_content_type : Bytes
k_header_content_type = codes "Content-Type"

abbrev pub k_content_length_zero : Bytes
k_content_length_zero = codes "0"

abbrev pub k_header_connection : Bytes
k_header_connection = codes "Connection"

abbrev pub k_connection_close : Bytes
k_connection_close = codes "Close"

abbrev pub k_connection_keep_alive : Bytes
k_connection_keep_alive = codes "Keep-Alive"

abbrev pub k_http_version : Bytes
k_http_version = codes "HTTP/1.1"

abbrev pub k_mime_type_html : Bytes
k_mime_type_html = codes "text/html"

abbrev pub k_mime_type_css : Bytes
k_mime_type_css = codes "text/css"

abbrev pub k_mime_type_png : Bytes
k_mime_type_png = codes "image/png"

abbrev pub k_mime_type_jpg : Bytes
k_mime_type_jpg = codes "image/jpg"

abbrev pub k_mime_type_jpeg : Bytes
k_mime_type_jpeg = codes "image/jpeg"

abbrev pub k_mime_type_gif : Bytes
k_mime_type_gif = codes "image/gif"

abbrev pub k_mime_type_octet : Bytes
k_mime_type_octet = codes "application/octet-stream"

abbrev pub k_response_status_ok : Bytes
k_response_status_ok = codes "200 OK"

abbrev pub k_response_status_bad_request : Bytes
k_response_status_bad_request = codes "400 Bad Request"

abbrev pub k_response_status_not_found : Bytes
k_response_status_not_found = codes "404 Not Found"

abbrev pub k_response_status_service_unavailable : Bytes
k_response_status_service_unavailable = codes "503 Service Unavailable"

pub data Method : Type 0 where
  get head unsupported : Method

pub data Version : Type 0 where
  http_1_1 unsupported : Version

pub data Extension : Type 0 where
  html css png jpg jpeg gif octet : Extension
