-- ===== src/Suites/Docker.antt =====
-- `docker_suites`
use kong_coco.Prelude.{ℕ, List, [], ◌∷◌, ◌++◌, Text, codes}
use kong_coco.Prelude.Digits.{show}
use kong_coco.Explain.Value.{Literal}
use kong_coco.Expect.Script.{Step, expect, attr, check, exists}

abbrev pub kong_uid : ℕ
kong_uid = 1000

abbrev pub kong_gid : ℕ
kong_gid = 1000

abbrev kong_paths : List Text
kong_paths = codes "/usr/local/kong/**" ∷ codes "/usr/local/bin/kong" ∷ []

abbrev other_paths : List Text
other_paths =
    codes "/usr/local/bin/luarocks"
    ∷ codes "/usr/local/etc/luarocks/**"
    ∷ codes "/usr/local/lib/lua/**"
    ∷ codes "/usr/local/lib/luarocks/**"
    ∷ codes "/usr/local/openresty/**"
    ∷ codes "/usr/local/share/lua/**"
    ∷ []

-- The body of the two loops over paths.
owned : ℕ → Text → List Text → List Step
owned gid whom [] = []
owned gid whom (path ∷ paths) =
    expect (path ∷ []) (path ++ (codes " owned by " ++ whom))
    ∷ attr (codes "uid")
    ∷ check (codes "equals") (Literal.int kong_uid)
    ∷ attr (codes "gid")
    ∷ check (codes "equals") (Literal.int gid)
    ∷ owned gid whom paths

account : Text → Text → ℕ → List Step
unfolding show
account file message id =
    expect (file ∷ []) message
    ∷ attr (codes "text_content")
    ∷ check (codes "matches") (Literal.str (codes "kong:x:" ++ show id))
    ∷ []

-- `docker_suites(expect)`
unfoldable pub docker_suites : List Step
unfolding owned account
docker_suites =
    account (codes "/etc/passwd") (codes "kong user exists") kong_uid
    ++ (account (codes "/etc/group") (codes "kong group exists") kong_gid
        ++ (owned 0 (codes "kong:root") kong_paths
            ++ (owned kong_gid (codes "kong:kong") other_paths
                ++ (expect
                      (codes "/etc/ssl/certs/ca-certificates.crt"
                        ∷ codes "/etc/pki/tls/certs/ca-bundle.crt"
                        ∷ codes "/etc/ssl/ca-bundle.pem"
                        ∷ codes "/etc/pki/tls/cacert.pem"
                        ∷ codes "/etc/pki/ca-trust/extracted/pem/tls-ca-bundle.pem"
                        ∷ codes "/etc/ssl/cert.pem"
                        ∷ [])
                      (codes "ca-certiticates exists")
                    ∷ exists
                    ∷ []))))
