-- ===== src/Net.antt =====
-- utils/net.go: the listener behind an endpoint.
use csi_runtime.Base.{
  String, Bool, Result, ok, err, str_eq, ◌||◌, if◌then◌else◌, ◌≡◌, arith, refl, true,
}
use csi_runtime.Rpc.{Error, other}

-- `url.URL`, as far as it is read.
pub record Url : Type 0 where
  pub scheme : String
  pub host : String
  pub path : String

abbrev pub is_listened : String → Bool
is_listened s =
    str_eq s "tcp"
    || (str_eq s "tcp4" || (str_eq s "tcp6" || (str_eq s "unix" || str_eq s "unixpacket")))

-- `url.Parse`, `path.Join` of two elements and `net.ListenConfig.Listen` are outside; `W` is what the
-- last of them reads and changes.
module _ {Listener W : Type 0} (parse : String → Result Error Url) (join : String → String → String)
    (listen : String → String → W → Result Error Listener × W) where
  -- The switch on the scheme.
  abbrev listener_of : Result Error Url → W → Result Error Listener × W
  listener_of (err e) w = (err e, w)
  listener_of (ok u) w =
      if is_listened u.scheme
      then listen u.scheme (join u.host u.path) w
      else (err (other "Can't listen"), w)

  -- `ListenerFromUrl`
  unfoldable pub listener_from_url : String → W → Result Error Listener × W
  listener_from_url endpoint = listener_of (parse endpoint)

  -- A listener is only ever opened for an endpoint that parses, with one of the five schemes, at the
  -- endpoint's host and path joined.
  listener_lem :
      (endpoint : String) (w v : W) (l : Listener)
      → listener_from_url endpoint w ≡ (ok l, v)
      → (u : Url) × (parse endpoint ≡ ok u)
        × (is_listened u.scheme ≡ true)
        × (listen u.scheme (join u.host u.path) w ≡ (ok l, v))
  unfolding listener_from_url
  listener_lem endpoint w v l h = by_url (parse endpoint) h
    where
      by_url :
          (r : Result Error Url)
          → listener_of r w ≡ (ok l, v)
          → (u : Url) × (r ≡ ok u)
            × (is_listened u.scheme ≡ true)
            × (listen u.scheme (join u.host u.path) w ≡ (ok l, v))
      by_url (err e) e' = ground arith
      by_url (ok u) e' = (u, refl, ground arith, ground arith)
