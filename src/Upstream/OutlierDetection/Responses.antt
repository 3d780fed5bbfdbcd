-- ===== src/Upstream/OutlierDetection/Responses.antt =====
-- The counter of consecutive errors of a host.
use meliproxy.Upstream.OutlierDetection.{
  Monitor, Detector, put_http_response_code, is_5xx, get_integer,
}
use meliproxy.Shared.{
  ◌<◌, if◌then◌else◌, ℕ, suc, ◌∷◌, All, refl, true, ◌+◌, codes, ◌≡◌, length, List, [], ◌^◌, arith,
  ltb, Bool, ◌&&◌, ◌==◌, leb, inc32,
}

-- A run of responses of one host, and how often the host is posted.
abbrev pub respond_all : Detector → List ℕ → Monitor → Monitor × ℕ
respond_all d [] m = (m, 0)
respond_all d (code ∷ codes) m =
    let (m₁, post) = put_http_response_code d code m in
    let (m₂, posts) = respond_all d codes m₁ in (m₂, if post then suc posts else posts)

abbrev pub threshold : Detector → ℕ
threshold d = get_integer d.runtime "outlier_detection.consecutive_5xx" d.config.consecutive_5xx

put-error :
    (d : Detector) (code : ℕ) (m : Monitor)
    → is_5xx code ≡ true
    → ((put_http_response_code d code m).1 ≡ (inc32 m.consecutive_5xx_count == threshold d))
      × ((put_http_response_code d code m).0.consecutive_5xx_count ≡ inc32 m.consecutive_5xx_count)
unfolding put_http_response_code
put-error d code m e = rw e (refl, refl)

-- Of a run of errors of one host, one is posted to the main thread if the counter passes the
-- threshold on the way: it begins below it and there are enough errors. Otherwise none is, so that a
-- counter at the threshold or above it stays unnoticed. The counter does not wrap on the way.
pub respond_all-posted :
    (d : Detector) (codes : List ℕ) (m : Monitor)
    → All (λ code. is_5xx code ≡ true) codes
    → m.consecutive_5xx_count + length codes < 2 ^ 32
    → (respond_all d codes m).1 ≡ (
        if ltb m.consecutive_5xx_count (threshold d)
          && leb (threshold d) (m.consecutive_5xx_count + length codes)
        then 1
        else 0)
respond_all-posted d [] m a l = ground arith
respond_all-posted d (code ∷ codes) m (e, a) l =
    let (p, c) = put-error d code m e in
    passes (put_http_response_code d code m).1 _ _ p c
      (respond_all-posted d codes (put_http_response_code d code m).0 a (omega (arith, c, l)))
  where
    passes :
        (post : Bool) (n posts : ℕ)
        → post ≡ (inc32 m.consecutive_5xx_count == threshold d)
        → n ≡ inc32 m.consecutive_5xx_count
        → posts ≡ (if ltb n (threshold d) && leb (threshold d) (n + length codes) then 1 else 0)
        → (if post then suc posts else posts) ≡ (
            if ltb m.consecutive_5xx_count (threshold d)
              && leb (threshold d) (m.consecutive_5xx_count + suc (length codes))
            then 1
            else 0)
    passes post n posts p c e = ground arith
