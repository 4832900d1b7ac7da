-- ===== src/Suites/Common.antt =====
-- `common_suites`
use kong_coco.Prelude.{Bool, true, List, [], ◌∷◌, ◌++◌, map, Text, codes, String, if◌then◌else◌}
use kong_coco.Explain.Value.{Literal}
use kong_coco.Expect.Script.{Step, expect, attr, check, key, do_not, exists}

abbrev pub nginx : List Text
nginx = codes "/usr/local/openresty/nginx/sbin/nginx" ∷ []

abbrev pub lit : String → Literal
lit s = Literal.str (codes s)

contains_function : Text → Step
contains_function name = check (codes "contain") (Literal.str name)

-- The functions of Kong's patches to nginx.
abbrev patched_functions : List Text
patched_functions =
    codes "ngx_http_lua_kong_ffi_set_grpc_authority"
    ∷ codes "ngx_http_lua_ffi_balancer_enable_keepalive"
    ∷ codes "ngx_http_lua_kong_ffi_set_dynamic_log_level"
    ∷ codes "ngx_http_lua_kong_ffi_get_dynamic_log_level"
    ∷ codes "ngx_http_lua_kong_ffi_get_static_tag"
    ∷ codes "ngx_stream_lua_kong_ffi_get_static_tag"
    ∷ codes "ngx_http_lua_kong_ffi_get_full_client_certificate_chain"
    ∷ codes "ngx_http_lua_kong_ffi_disable_session_reuse"
    ∷ codes "ngx_http_lua_kong_ffi_set_upstream_client_cert_and_key"
    ∷ codes "ngx_http_lua_kong_ffi_set_upstream_ssl_trusted_store"
    ∷ codes "ngx_http_lua_kong_ffi_set_upstream_ssl_verify"
    ∷ codes "ngx_http_lua_kong_ffi_set_upstream_ssl_verify_depth"
    ∷ codes "ngx_stream_lua_kong_ffi_get_full_client_certificate_chain"
    ∷ codes "ngx_stream_lua_kong_ffi_disable_session_reuse"
    ∷ codes "ngx_stream_lua_kong_ffi_set_upstream_client_cert_and_key"
    ∷ codes "ngx_stream_lua_kong_ffi_set_upstream_ssl_trusted_store"
    ∷ codes "ngx_stream_lua_kong_ffi_set_upstream_ssl_verify"
    ∷ codes "ngx_stream_lua_kong_ffi_set_upstream_ssl_verify_depth"
    ∷ codes "ngx_http_lua_kong_ffi_var_get_by_index"
    ∷ codes "ngx_http_lua_kong_ffi_var_set_by_index"
    ∷ codes "ngx_http_lua_kong_ffi_var_load_indexes"
    ∷ []

existence : List Step
existence =
    expect (codes "/usr/local/kong/include/google/protobuf/**.proto" ∷ [])
      (codes "includes Google protobuf headers")
    ∷ exists
    ∷ expect (codes "/usr/local/kong/include/kong/**/*.proto" ∷ [])
        (codes "includes Kong protobuf headers")
    ∷ exists
    ∷ expect (codes "/etc/kong/kong.conf.default" ∷ []) (codes "includes default kong config")
    ∷ exists
    ∷ expect (codes "/etc/kong/kong.logrotate" ∷ []) (codes "includes logrotate config")
    ∷ exists
    ∷ expect (codes "/usr/local/kong/include/openssl/**.h" ∷ []) (codes "includes OpenSSL headers")
    ∷ exists
    ∷ []

binary : List Step
binary =
    expect nginx (codes "nginx rpath should contain kong lib")
    ∷ attr (codes "rpath")
    ∷ check (codes "equals")
        (lit "/usr/local/openresty/luajit/lib:/usr/local/kong/lib:/usr/local/openresty/lualib")
    ∷ expect nginx (codes "nginx binary should contain dwarf info for dynatrace")
    ∷ attr (codes "has_dwarf_info")
    ∷ check (codes "equals") (Literal.bool true)
    ∷ attr (codes "has_ngx_http_request_t_DW")
    ∷ check (codes "equals") (Literal.bool true)
    ∷ expect nginx (codes "nginx binary should link pcre statically")
    ∷ attr (codes "exported_symbols")
    ∷ check (codes "contain") (lit "pcre2_general_context_free_8")
    ∷ attr (codes "exported_symbols")
    ∷ do_not
    ∷ check (codes "contain") (lit "pcre_free")
    ∷ attr (codes "needed_libraries")
    ∷ do_not
    ∷ check (codes "contain_match") (lit "libpcre.so.+")
    ∷ attr (codes "needed_libraries")
    ∷ do_not
    ∷ check (codes "contain_match") (lit "libpcre.+.so.+")
    ∷ attr (codes "needed_libraries")
    ∷ do_not
    ∷ check (codes "contain_match") (lit "libpcre2\\-(8|16|32).so.+")
    ∷ expect nginx (codes "nginx should not be compiled with debug flag")
    ∷ attr (codes "nginx_compile_flags")
    ∷ do_not
    ∷ check (codes "match") (lit "with\\-debug")
    ∷ []

patches : List Step
unfolding contains_function
patches =
    expect nginx (codes "nginx should include Kong's patches")
    ∷ attr (codes "functions")
    ∷ (map contains_function patched_functions
        ++ (expect (codes "/usr/local/openresty/lualib/libatc_router.so" ∷ [])
              (codes "ATC router so should have ffi module compiled")
            ∷ attr (codes "functions")
            ∷ check (codes "contain") (lit "router_execute")
            ∷ []))

libxcrypt : Bool → List Step
libxcrypt no_obsolete_api =
    if no_obsolete_api
    then expect nginx (codes "nginx linked with libxcrypt.so.2")
      ∷ attr (codes "needed_libraries")
      ∷ check (codes "contain") (lit "libcrypt.so.2")
      ∷ []
    else expect nginx (codes "nginx should link libxcrypt.so.1")
      ∷ attr (codes "needed_libraries")
      ∷ check (codes "contain") (lit "libcrypt.so.1")
      ∷ []

-- `.version_requirement.key(library).less_than("OPENSSL_3.3.0")`
openssl_below : Text → List Step
openssl_below library =
    attr (codes "version_requirement")
    ∷ key library
    ∷ check (codes "less_than") (lit "OPENSSL_3.3.0")
    ∷ []

openssl : List Step
unfolding openssl_below
openssl =
    expect nginx (codes "nginx compiled with OpenSSL 3.2.x")
    ∷ attr (codes "nginx_compiled_openssl")
    ∷ check (codes "matches") (lit "OpenSSL 3.2.\\d")
    ∷ (openssl_below (codes "libssl.so.3")
        ++ (openssl_below (codes "libcrypto.so.3")
            ++ (expect (codes "**/*.so" ∷ [])
                  (codes "dynamic libraries are compiled with OpenSSL 3.2.x")
                ∷ (openssl_below (codes "libssl.so.3") ++ openssl_below (codes "libcrypto.so.3")))))

-- `common_suites(expect, libxcrypt_no_obsolete_api)`
unfoldable pub common_suites : Bool → List Step
unfolding existence binary patches libxcrypt openssl
common_suites libxcrypt_no_obsolete_api =
    existence ++ (binary ++ (patches ++ (libxcrypt libxcrypt_no_obsolete_api ++ openssl)))
