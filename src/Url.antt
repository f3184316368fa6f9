-- ===== src/Url.antt =====
-- urlpolicy.go: which server-supplied URLs the client may contact. `url.Parse`, `url.URL.String` and
-- `net.ParseIP` are parameters.
pub mod Policy
pub mod Redirect
pub mod Rules
