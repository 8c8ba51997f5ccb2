-- ===== src/Topics/Request.antt =====
-- What the request for topics carries of the search.
use kafka_manager.Base.{◌≡◌, refl, some, ◌++◌, arith, Text, codes, map-eq-some}
use kafka_manager.Uri.{encode_uri_component, decode_uri_component, is_unreserved}
use kafka_manager.Uri.RoundTrip.{decode-encode}
use kafka_manager.Uri.CodePoints.{AreUnits}
use kafka_manager.Uri.Safety.{Avoids, encode-Avoids}
use kafka_manager.Topics.{topics_path}

-- Of a search text of 16-bit code units, the path carries a form that decodes to the text and in
-- which nothing ends the parameter or the query: neither "&" nor "#", and no "+", which a server
-- reads as a space.
topics_path-search :
    (id deferred : Text) {path : Text}
    → AreUnits deferred
    → topics_path id deferred ≡ some path
    → (sent : Text) × (path
        ≡ codes "/api/v1/clusters/"
          ++ (id ++ (codes "/topics?search=" ++ (sent ++ codes "&pageSize=200"))))
      × (decode_uri_component sent ≡ some deferred)
      × Avoids b'&' sent
      × Avoids b'#' sent
      × Avoids b'+' sent
unfolding topics_path is_unreserved
topics_path-search id deferred u e =
    let (sent, f, g) = map-eq-some _ (encode_uri_component deferred) e in
    (
      sent,
      g,
      decode-encode deferred u f,
      encode-Avoids b'&' refl (omega arith) deferred u f,
      encode-Avoids b'#' refl (omega arith) deferred u f,
      encode-Avoids b'+' refl (omega arith) deferred u f,
    )
