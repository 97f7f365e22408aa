-- ===== src/Analytics/UserAgent.antt =====
-- pkg/useragent/parser.go and pkg/geoip/lookup.go.
use usp_cloud_native.Prelude.{
  Str, codes, str_eq, to_lower, is_empty, contains, trim_space, has_prefix, drop, any, ◌==◌, Bool,
  true, false, not, ◌&&◌, ◌||◌, if◌then◌else◌, Option, none, some, List, [], ◌∷◌,
}

pub record ParsedUa : Type 0 where
  pub device_type : Str
  pub browser_family : Str
  pub os_family : Str
  pub is_bot : Bool

abbrev pub bot_patterns : List Str
bot_patterns =
    codes "googlebot"
    ∷ codes "bingbot"
    ∷ codes "slurp"
    ∷ codes "duckduckbot"
    ∷ codes "baiduspider"
    ∷ codes "yandexbot"
    ∷ codes "sogou"
    ∷ codes "exabot"
    ∷ codes "facebot"
    ∷ codes "ia_archiver"
    ∷ codes "twitterbot"
    ∷ codes "linkedinbot"
    ∷ codes "whatsapp"
    ∷ codes "telegrambot"
    ∷ codes "semrushbot"
    ∷ codes "ahrefsbot"
    ∷ codes "mj12bot"
    ∷ codes "dotbot"
    ∷ codes "rogerbot"
    ∷ codes "screaming frog"
    ∷ codes "sitebulb"
    ∷ codes "uptimerobot"
    ∷ codes "pingdom"
    ∷ codes "site24x7"
    ∷ codes "statuscake"
    ∷ codes "newrelic"
    ∷ codes "datadog"
    ∷ codes "appdynamics"
    ∷ codes "curl/"
    ∷ codes "wget/"
    ∷ codes "python-requests"
    ∷ codes "python-urllib"
    ∷ codes "go-http-client"
    ∷ codes "axios/"
    ∷ codes "node-fetch"
    ∷ codes "okhttp"
    ∷ codes "java/"
    ∷ codes "apache-httpclient"
    ∷ codes "libwww-perl"
    ∷ codes "bot"
    ∷ codes "crawler"
    ∷ codes "spider"
    ∷ codes "scraper"
    ∷ codes "headless"
    ∷ codes "phantomjs"
    ∷ codes "selenium"
    ∷ []

abbrev pub unknown : Str
unknown = codes "unknown"

-- The first of the names whose test succeeds, as the cases of a `switch`.
abbrev pub first_name : List (Bool × Str) → Str
first_name [] = unknown
first_name ((test, name) ∷ cases) = if test then name else first_name cases

unfoldable pub parse_os_family : Str → Str
unfolding contains
parse_os_family lower = first_name (
    (contains lower (codes "android"), codes "Android")
    ∷ (
      contains lower (codes "iphone")
          || (contains lower (codes "ipad") || contains lower (codes "ipod")),
      codes "iOS",
    )
    ∷ (contains lower (codes "windows"), codes "Windows")
    ∷ (contains lower (codes "mac os x") || contains lower (codes "macos"), codes "macOS")
    ∷ (contains lower (codes "linux"), codes "Linux")
    ∷ (contains lower (codes "chromeos") || contains lower (codes "cros"), codes "ChromeOS")
    ∷ [])

unfoldable pub parse_device_type : Str → Str → Str
unfolding contains str_eq
parse_device_type lower os_family = first_name (
    (
      contains lower (codes "ipad")
          || ((contains lower (codes "android") && not (contains lower (codes "mobile")))
              || contains lower (codes "tablet")),
      codes "tablet",
    )
    ∷ (
      contains lower (codes "mobile")
          || (contains lower (codes "iphone")
              || (contains lower (codes "ipod")
                  || (str_eq os_family (codes "Android") || str_eq os_family (codes "iOS")))),
      codes "mobile",
    )
    ∷ (not (str_eq os_family unknown), codes "desktop")
    ∷ [])

unfoldable pub parse_browser_family : Str → Str
unfolding contains
parse_browser_family lower = first_name (
    (contains lower (codes "edg/") || contains lower (codes "edge/"), codes "Edge")
    ∷ (contains lower (codes "opr/") || contains lower (codes "opera"), codes "Opera")
    ∷ (contains lower (codes "samsungbrowser"), codes "Samsung Internet")
    ∷ (contains lower (codes "chrome/") && not (contains lower (codes "chromium")), codes "Chrome")
    ∷ (contains lower (codes "chromium"), codes "Chromium")
    ∷ (contains lower (codes "firefox/") || contains lower (codes "fxios"), codes "Firefox")
    ∷ (contains lower (codes "safari/") && contains lower (codes "version/"), codes "Safari")
    ∷ (
      contains lower (codes "msie") || contains lower (codes "trident/"),
      codes "Internet Explorer",
    )
    ∷ [])

unfoldable pub parse : Str → ParsedUa
unfolding to_lower contains parse_os_family parse_device_type parse_browser_family
parse ua =
    let lower = to_lower ua in
    if is_empty ua
    then record {
      device_type = unknown;
      browser_family = unknown;
      os_family = unknown;
      is_bot = false;
    }
    else if any (contains lower) bot_patterns
    then record {
      device_type = codes "bot";
      browser_family = codes "bot";
      os_family = unknown;
      is_bot = true;
    }
    else record {
      device_type = parse_device_type lower (parse_os_family lower);
      browser_family = parse_browser_family lower;
      os_family = parse_os_family lower;
      is_bot = false;
    }

-- What follows the first "://", or all of it.
abbrev rest_after : Str → Option Str
rest_after [] = none
rest_after (c ∷ s) =
    let later = rest_after s in
    if has_prefix (c ∷ s) (codes "://") then some (drop 3 (c ∷ s)) else later

abbrev or_all : Str → Option Str → Str
or_all s none = s
or_all s (some t) = t

-- What comes before the first "/", "?" or "#".
abbrev until_path : Str → Str
until_path [] = []
until_path (c ∷ s) =
    let rest = until_path s in if (c == b'/') || ((c == b'?') || (c == b'#')) then [] else c ∷ rest

-- What comes before the last ":", and from it on.
abbrev last_colon : Str → Option (Str × Str)
last_colon [] = none
last_colon (c ∷ s) = elim (last_colon s) [
  | some (front, back) ↦ some (c ∷ front, back)
  | none ↦ if c == b':' then some ([], c ∷ s) else none
]

abbrev without_port : Str → Option (Str × Str) → Str
without_port s none = s
without_port s (some (front, back)) = if not (contains back (codes "]")) then front else s

abbrev or_unknown : Str → Str
or_unknown s = if is_empty s then unknown else to_lower s

abbrev pub host_of : Str → Str
host_of s = without_port s (last_colon s)

unfoldable pub extract_referrer_domain : Str → Str
unfolding contains trim_space to_lower has_prefix
extract_referrer_domain referrer =
    if is_empty referrer
    then codes "direct"
    else or_unknown (trim_space (host_of (until_path (or_all referrer (rest_after referrer)))))

-- Every address is of an unknown country.
unfoldable pub lookup_country : Str → Str
lookup_country ip = codes "XX"
