-- ===== src/Client.antt =====
-- shell/browser/shell_content_browser_client.cc: certificate errors, which Java decides, and the
-- permissions, which are all refused; and the message of shell/browser/shell.cc that asks a renderer
-- to insert style sheets.
pub mod Certificates
pub mod Answers
pub mod Permissions
pub mod RoundTrip
mod Tests
use seaturtle.Common.{
  ℕ, Bool, true, false, not, ◌&&◌, Option, none, some, List, [], ◌∷◌, ◌++◌, ◌==◌, if◌then◌else◌,
  Bytes, Abort, ok, crash,
}
use seaturtle.Url.{UrlApi, krypton_scheme}
use seaturtle.Settings.{Filters}
use seaturtle.Blocker.{Blocker}
use seaturtle.Blocker.Whitelist.{is_whitelisted}
use seaturtle.Shell.{Shell, Browser, sub_resource_ssl_error, location}
use seaturtle.Shell.Registry.{for_web_contents, for_render_process_and_id}
use seaturtle.Shell.Log.{log_event}

-- jni::CertificateError; the error code is that of net without its minus sign.
pub record CertificateError : Type 0 where
  pub native_callback : ℕ
  pub render_process_id : ℕ
  pub render_frame_id : ℕ
  pub cert_error : ℕ
  pub url : Bytes
  pub der_encoded_cert : Option Bytes

-- The browser, the heap of `new AceCb(callback)` by address, what Java has been asked, with the
-- address that it is to answer to, and the calls of callbacks, the oldest first. A callback is a
-- number.
pub record Client (Gurl : Type 0) : Type 0 where
  pub browser : Browser Gurl
  pub callbacks : List (ℕ × ℕ)
  pub asked : List CertificateError
  pub ran : List (ℕ × Bool)

-- The certificate of an SSLInfo: none, one that has a DER encoding, or one that has not.
pub data Certificate : Type 0 where
  no_certificate undecodable : Certificate
  der_encoded : Bytes → Certificate

abbrev pub behind : ℕ × ℕ → Option (ℕ × List (ℕ × ℕ)) → Option (ℕ × List (ℕ × ℕ))
behind entry none = none
behind entry (some (callback, heap)) = some (callback, entry ∷ heap)

-- The entry of an address, and the heap without it.
unfoldable pub take_callback : ℕ → List (ℕ × ℕ) → Option (ℕ × List (ℕ × ℕ))
take_callback ptr [] = none
take_callback ptr (entry ∷ heap) =
    let rest = take_callback ptr heap in
    if entry.0 == ptr then some (entry.1, heap) else behind entry rest

module _ {Gurl : Type 0} where
  -- A sub-resource is refused on the spot; a NULL shell is dereferenced.
  abbrev pub refuse_sub_resource : Option (Shell Gurl) → Bytes → Client Gurl → Abort (Client Gurl)
  refuse_sub_resource none url st = crash
  refuse_sub_resource (some s) url st =
      ok (record st { browser = log_event s.self sub_resource_ssl_error true url st.browser })

  -- What is asked, given the encoding of the certificate.
  abbrev pub send_question : ℕ × ℕ → ℕ → Bytes → Option Bytes → ℕ → ℕ → Client Gurl → Client Gurl
  send_question frame cert_error url der ptr callback st =
      let ce : CertificateError = record {
        native_callback = ptr;
        render_process_id = frame.0;
        render_frame_id = frame.1;
        cert_error = cert_error;
        url = url;
        der_encoded_cert = der;
      } in
      record st { callbacks = (ptr, callback) ∷ st.callbacks; asked = st.asked ++ ce ∷ [] }

  abbrev pub ask_about_certificate :
      ℕ × ℕ → ℕ → Bytes → Certificate → ℕ → ℕ → Client Gurl → Abort (Client Gurl)
  ask_about_certificate frame cert_error url undecodable ptr callback st = crash
  ask_about_certificate frame cert_error url no_certificate ptr callback st =
      ok (send_question frame cert_error url none ptr callback st)
  ask_about_certificate frame cert_error url (der_encoded der) ptr callback st =
      ok (send_question frame cert_error url (some der) ptr callback st)

  -- ShellContentBrowserClient::AllowCertificateError; `ptr` is the address that `new` gives, and
  -- `frame` the ids of the process and the frame. The result is the state, and whether the request
  -- was denied at once.
  unfoldable pub allow_certificate_error :
      (ℕ → ℕ → Option ℕ)
      → Bool
      → ℕ × ℕ
      → ℕ
      → Bytes
      → Certificate
      → ℕ
      → ℕ
      → Client Gurl
      → Abort (Client Gurl)
  unfolding for_render_process_and_id
  allow_certificate_error from_id is_main_frame frame cert_error url cert ptr callback st =
      if not is_main_frame
      then refuse_sub_resource
          (for_render_process_and_id from_id frame.0 frame.1 st.browser.all_shells) url st
      else ask_about_certificate frame cert_error url cert ptr callback st

  abbrev pub run_taken : Option (ℕ × List (ℕ × ℕ)) → Bool → Client Gurl → Abort (Client Gurl)
  run_taken none allow st = crash
  run_taken (some (callback, heap)) allow st =
      ok (record st { callbacks = heap; ran = st.ran ++ (callback, allow) ∷ [] })

  -- AllowCertificateErrorResponse: run the callback at the address and delete it; at an address that
  -- holds none the behaviour is undefined.
  unfoldable pub allow_certificate_error_response : ℕ → Bool → Client Gurl → Abort (Client Gurl)
  unfolding take_callback
  allow_certificate_error_response native_callback allow st =
      run_taken (take_callback native_callback st.callbacks) allow st

  abbrev pub log_location : Option (Shell Gurl) → Bytes → Browser Gurl → Browser Gurl
  log_location none url b = b
  log_location (some s) url b = log_event s.self location true url b

  -- RequestGeolocationPermission, with the answer to the callback.
  unfoldable pub request_geolocation_permission : ℕ → Bytes → Browser Gurl → Bool × Browser Gurl
  unfolding for_web_contents
  request_geolocation_permission wc url b =
      (false, log_location (for_web_contents wc b.all_shells) url b)

  -- IsHandledURL
  unfoldable pub is_handled_url : UrlApi Gurl → Gurl → Bool
  is_handled_url api url = api.scheme_is url krypton_scheme

  -- Shell::OnNotifyDidCreateDocumentElement: whether InjectCssInFrame is sent to the frame.
  unfoldable pub sends_inject_css : {W : Type 0} → UrlApi Gurl → Filters → Blocker W → Gurl → Bool
  sends_inject_css api s b last_committed_url =
      if not s.inject_css then false else not (is_whitelisted api b last_committed_url)
