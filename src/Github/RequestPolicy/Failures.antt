-- ===== src/Github/RequestPolicy/Failures.antt =====
-- Which failures of a request may be repeated.
use understandproof.Base.{ℕ, ◌≤◌, ◌≡◌, ◌⊎◌, true, Option, none, some, Text, text_eq, text}
use understandproof.Github.RequestPolicy.{
  HttpFailure, header, read_retry_after, is_exhausted, is_some,
}

module _ (to_millis date_parse : Text → Option ℕ) where
  -- GitHub says that a limit was reached: by a time to retry after, by a limit that is used up, or by the
  -- message of its secondary limit.
  unfoldable pub SaysLimited : HttpFailure → ℕ → Type 0
  SaysLimited f now =
      (is_some (read_retry_after to_millis date_parse f.headers now) ≡ true)
      ⊎ ((is_exhausted (header f.headers (text "x-ratelimit-remaining")) ≡ true)
          ⊎ (f.secondary_rate_limit ≡ true))

  unfoldable pub MayRepeat : HttpFailure → ℕ → Option ℕ → Type 0
  MayRepeat f now none = Unit
  MayRepeat f now (some status) =
      (status ≡ 429) ⊎ (((status ≡ 403) × SaysLimited f now) ⊎ ((500 ≤ status) × (status ≤ 599)))
