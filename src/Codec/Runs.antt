-- ===== src/Codec/Runs.antt =====
-- Runs of the names of transports and codecs.
use dubbogo.Base.{◌≡◌, refl}
use dubbogo.Codec.{name_at, find_type, get_type, get_transport_type, get_codec_type}

no_name : (get_codec_type "" ≡ 3) × (get_transport_type "tcp" ≡ 3)
unfolding get_codec_type get_transport_type get_type find_type name_at
no_name = (refl, refl)
