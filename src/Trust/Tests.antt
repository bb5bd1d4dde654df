-- ===== src/Trust/Tests.antt =====
-- A trust store of one key.
use certael_agent.Protocol.Samples.{ring, key}
use certael_agent.Trust.Samples.{trust_tools}
use certael_agent.Text.{Bytes, text, len, bytes, utf8}
use certael_agent.Protocol.KeyRing.{resolve, new, unusable, duplicate_id}
use certael_agent.Trust.{TrustKeyFile, load, read_keys, read_key}
use certael_agent.Trust.Loaded.{load-IsTrusted, IsOwn, IsUsable, Gives}
use certael_agent.Prelude.Int.{pos}
use certael_agent.Files.{plain, FileNode}
use certael_agent.Prelude.{[], ◌∷◌, ◌≡◌, ◌↔◌, List, ok, All, refl, some, any}

abbrev store : FileNode
store = plain (1 ∷ 2 ∷ [])

store_loaded : load trust_tools (some store) ≡ ok ring
unfolding load read_keys read_key new unusable duplicate_id any len bytes utf8
store_loaded = refl

load-IsTrusted_example :
    (f : FileNode) × (some store ≡ some f)
    × IsOwn f
    × (b : Bytes) × (f.content ≡ some b)
    × (values : List TrustKeyFile) × (trust_tools.parse b ≡ some values)
    × All (IsUsable trust_tools) values
    × ((resolve ring (text "k") (pos 7) ≡ ok key) ↔ Gives trust_tools values (text "k") (pos 7) key)
load-IsTrusted_example =
    load-IsTrusted trust_tools (some store) ring (text "k") (pos 7) key store_loaded
