-- ===== src/Hooks/CurlErrors.antt =====
-- src/zend_hook_curl.cc: the names of the curl error codes. Code 84 is listed twice, with one name.
use opentelemetry_php_ext.Common.{ℕ, List, [], ◌∷◌, Bytes, text}

-- `error_maps`
unfoldable pub error_maps : List (ℕ × Bytes)
error_maps =
    (1, text "CURLE_UNSUPPORTED_PROTOCOL")
    ∷ (2, text "CURLE_FAILED_INIT")
    ∷ (3, text "CURLE_URL_MALFORMAT")
    ∷ (4, text "CURLE_URL_MALFORMAT_USER")
    ∷ (5, text "CURLE_COULDNT_RESOLVE_PROXY")
    ∷ (6, text "CURLE_COULDNT_RESOLVE_HOST")
    ∷ (7, text "CURLE_COULDNT_CONNECT")
    ∷ (8, text "CURLE_FTP_WEIRD_SERVER_REPLY")
    ∷ (9, text "CURLE_REMOTE_ACCESS_DENIED")
    ∷ (11, text "CURLE_FTP_WEIRD_PASS_REPLY")
    ∷ (13, text "CURLE_FTP_WEIRD_PASV_REPLY")
    ∷ (14, text "CURLE_FTP_WEIRD_227_FORMAT")
    ∷ (15, text "CURLE_FTP_CANT_GET_HOST")
    ∷ (17, text "CURLE_FTP_COULDNT_SET_TYPE")
    ∷ (18, text "CURLE_PARTIAL_FILE")
    ∷ (19, text "CURLE_FTP_COULDNT_RETR_FILE")
    ∷ (21, text "CURLE_QUOTE_ERROR")
    ∷ (22, text "CURLE_HTTP_RETURNED_ERROR")
    ∷ (23, text "CURLE_WRITE_ERROR")
    ∷ (25, text "CURLE_UPLOAD_FAILED")
    ∷ (26, text "CURLE_READ_ERROR")
    ∷ (27, text "CURLE_OUT_OF_MEMORY")
    ∷ (28, text "CURLE_OPERATION_TIMEDOUT")
    ∷ (30, text "CURLE_FTP_PORT_FAILED")
    ∷ (31, text "CURLE_FTP_COULDNT_USE_REST")
    ∷ (33, text "CURLE_RANGE_ERROR")
    ∷ (34, text "CURLE_HTTP_POST_ERROR")
    ∷ (35, text "CURLE_SSL_CONNECT_ERROR")
    ∷ (36, text "CURLE_BAD_DOWNLOAD_RESUME")
    ∷ (37, text "CURLE_FILE_COULDNT_READ_FILE")
    ∷ (38, text "CURLE_LDAP_CANNOT_BIND")
    ∷ (39, text "CURLE_LDAP_SEARCH_FAILED")
    ∷ (41, text "CURLE_FUNCTION_NOT_FOUND")
    ∷ (42, text "CURLE_ABORTED_BY_CALLBACK")
    ∷ (43, text "CURLE_BAD_FUNCTION_ARGUMENT")
    ∷ (45, text "CURLE_INTERFACE_FAILED")
    ∷ (47, text "CURLE_TOO_MANY_REDIRECTS")
    ∷ (48, text "CURLE_UNKNOWN_TELNET_OPTION")
    ∷ (49, text "CURLE_TELNET_OPTION_SYNTAX")
    ∷ (51, text "CURLE_PEER_FAILED_VERIFICATION")
    ∷ (52, text "CURLE_GOT_NOTHING")
    ∷ (53, text "CURLE_SSL_ENGINE_NOTFOUND")
    ∷ (54, text "CURLE_SSL_ENGINE_SETFAILED")
    ∷ (55, text "CURLE_SEND_ERROR")
    ∷ (56, text "CURLE_RECV_ERROR")
    ∷ (58, text "CURLE_SSL_CERTPROBLEM")
    ∷ (59, text "CURLE_SSL_CIPHER")
    ∷ (60, text "CURLE_SSL_CACERT")
    ∷ (61, text "CURLE_BAD_CONTENT_ENCODING")
    ∷ (62, text "CURLE_LDAP_INVALID_URL")
    ∷ (63, text "CURLE_FILESIZE_EXCEEDED")
    ∷ (64, text "CURLE_USE_SSL_FAILED")
    ∷ (65, text "CURLE_SEND_FAIL_REWIND")
    ∷ (66, text "CURLE_SSL_ENGINE_INITFAILED")
    ∷ (67, text "CURLE_LOGIN_DENIED")
    ∷ (68, text "CURLE_TFTP_NOTFOUND")
    ∷ (69, text "CURLE_TFTP_PERM")
    ∷ (70, text "CURLE_REMOTE_DISK_FULL")
    ∷ (71, text "CURLE_TFTP_ILLEGAL")
    ∷ (72, text "CURLE_TFTP_UNKNOWNID")
    ∷ (73, text "CURLE_REMOTE_FILE_EXISTS")
    ∷ (74, text "CURLE_TFTP_NOSUCHUSER")
    ∷ (75, text "CURLE_CONV_FAILED")
    ∷ (76, text "CURLE_CONV_REQD")
    ∷ (77, text "CURLE_SSL_CACERT_BADFILE")
    ∷ (78, text "CURLE_REMOTE_FILE_NOT_FOUND")
    ∷ (79, text "CURLE_SSH")
    ∷ (80, text "CURLE_SSL_SHUTDOWN_FAILED")
    ∷ (81, text "CURLE_AGAIN")
    ∷ (82, text "CURLE_SSL_CRL_BADFILE")
    ∷ (83, text "CURLE_SSL_ISSUER_ERROR")
    ∷ (84, text "CURLE_FTP_PRET_FAILED")
    ∷ (84, text "CURLE_FTP_PRET_FAILED")
    ∷ (85, text "CURLE_RTSP_CSEQ_ERROR")
    ∷ (86, text "CURLE_RTSP_SESSION_ERROR")
    ∷ (87, text "CURLE_FTP_BAD_FILE_LIST")
    ∷ (88, text "CURLE_CHUNK_FAILED")
    ∷ []
