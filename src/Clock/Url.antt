-- ===== src/Clock/Url.antt =====
-- The URL that the time is asked for.
use aetus.Base.{
  ℕ, ◌-◌, ◌+◌, ◌≤◌, ◌≡◌, refl, false, some, List, ◌++◌, arith, length, le→leb, length-append,
  take-length-append,
}
use aetus.Types.{Config}
use aetus.Esp.{ok}
use aetus.CString.Suffix.{ends_with-append}
use aetus.Frame.{has_text}
use aetus.Clock.{ingest_path, time_path, resolve_time_url}

-- Without a time URL, an ingest URL that ends in the ingest path gives the time path of the same
-- host, if the buffer holds it.
pub resolve_time_url-sibling :
    (config : Config) (host : List ℕ) (n : ℕ)
    → has_text config.time_url ≡ false
    → config.ingest_url ≡ some (host ++ ingest_path)
    → length host + length time_path + 1 ≤ n
    → resolve_time_url config n ≡ ok (host ++ time_path)
unfolding resolve_time_url
resolve_time_url-sibling config host n no_url e room =
    let cut : length (host ++ ingest_path) - length ingest_path ≡ length host =
      omega (arith, length-append {0} host ingest_path) in
    rw (no_url, e)
      (rw
        (
          ends_with-append host ingest_path,
          cut,
          le→leb _ _ room,
          take-length-append host ingest_path,
        )
        refl)
