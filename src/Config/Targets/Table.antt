-- ===== src/Config/Targets/Table.antt =====
-- The table of config.py.
use kong_coco.Prelude.{map, true, false, none, some, [], ◌∷◌, codes}
use kong_coco.Result.{Result}
use kong_coco.Expect.State.{ExpectSuite}
use kong_coco.Config.Targets.{Test, common, libc_libcpp, docker, Targets, populate}

abbrev alpine : ExpectSuite Test
alpine = record {
  name = codes "Alpine Linux (amd64)";
  manifest = some (codes "fixtures/alpine-amd64.txt");
  use_rpath = true;
  tests = common false ∷ libc_libcpp none (some (codes "3.4.29")) (some (codes "1.3.13")) ∷ [];
}

abbrev amazonlinux_2 : ExpectSuite Test
amazonlinux_2 = record {
  name = codes "Amazon Linux 2 (amd64)";
  manifest = some (codes "fixtures/amazonlinux-2-amd64.txt");
  use_rpath = true;
  tests =
      common false
      ∷ libc_libcpp (some (codes "2.26")) (some (codes "3.4.24")) (some (codes "1.3.11"))
      ∷ [];
}

abbrev amazonlinux_2023 : ExpectSuite Test
amazonlinux_2023 = record {
  name = codes "Amazon Linux 2023 (amd64)";
  manifest = some (codes "fixtures/amazonlinux-2023-amd64.txt");
  use_rpath = false;
  tests =
      common true
      ∷ libc_libcpp (some (codes "2.34")) (some (codes "3.4.29")) (some (codes "1.3.13"))
      ∷ [];
}

abbrev el7 : ExpectSuite Test
el7 = record {
  name = codes "Redhat 7 (amd64)";
  manifest = some (codes "fixtures/el7-amd64.txt");
  use_rpath = true;
  tests =
      common false
      ∷ libc_libcpp (some (codes "2.17")) (some (codes "3.4.19")) (some (codes "1.3.7"))
      ∷ [];
}

abbrev el8 : ExpectSuite Test
el8 = record {
  name = codes "Redhat 8 (amd64)";
  manifest = some (codes "fixtures/el8-amd64.txt");
  use_rpath = true;
  tests =
      common false
      ∷ libc_libcpp (some (codes "2.28")) (some (codes "3.4.25")) (some (codes "1.3.11"))
      ∷ [];
}

abbrev el9 : ExpectSuite Test
el9 = record {
  name = codes "Redhat 8 (amd64)";
  manifest = some (codes "fixtures/el9-amd64.txt");
  use_rpath = true;
  tests =
      common true
      ∷ libc_libcpp (some (codes "2.34")) (some (codes "3.4.29")) (some (codes "1.3.13"))
      ∷ [];
}

abbrev ubuntu_20_04 : ExpectSuite Test
ubuntu_20_04 = record {
  name = codes "Ubuntu 20.04 (amd64)";
  manifest = some (codes "fixtures/ubuntu-20.04-amd64.txt");
  use_rpath = false;
  tests =
      common false
      ∷ libc_libcpp (some (codes "2.30")) (some (codes "3.4.28")) (some (codes "1.3.12"))
      ∷ [];
}

abbrev ubuntu_22_04 : ExpectSuite Test
ubuntu_22_04 = record {
  name = codes "Ubuntu 22.04 (amd64)";
  manifest = some (codes "fixtures/ubuntu-22.04-amd64.txt");
  use_rpath = false;
  tests =
      common false
      ∷ libc_libcpp (some (codes "2.35")) (some (codes "3.4.29")) (some (codes "1.3.13"))
      ∷ [];
}

abbrev debian_10 : ExpectSuite Test
debian_10 = record {
  name = codes "Debian 10 (amd64)";
  manifest = some (codes "fixtures/debian-10-amd64.txt");
  use_rpath = false;
  tests =
      common false
      ∷ libc_libcpp (some (codes "2.28")) (some (codes "3.4.25")) (some (codes "1.3.11"))
      ∷ [];
}

abbrev debian_11 : ExpectSuite Test
debian_11 = record {
  name = codes "Debian 11 (amd64)";
  manifest = some (codes "fixtures/debian-11-amd64.txt");
  use_rpath = false;
  tests =
      common false
      ∷ libc_libcpp (some (codes "2.31")) (some (codes "3.4.28")) (some (codes "1.3.12"))
      ∷ [];
}

abbrev debian_12 : ExpectSuite Test
debian_12 = record {
  name = codes "Debian 12 (amd64)";
  manifest = some (codes "fixtures/debian-12-amd64.txt");
  use_rpath = false;
  tests =
      common false
      ∷ libc_libcpp (some (codes "2.36")) (some (codes "3.4.30")) (some (codes "1.3.13"))
      ∷ [];
}

abbrev docker_image : ExpectSuite Test
docker_image = record {
  name = codes "Generic Docker Image";
  manifest = none;
  use_rpath = false;
  tests = docker ∷ [];
}

abbrev pub written : Targets
written =
    (codes "alpine-amd64", alpine)
    ∷ (codes "amazonlinux-2-amd64", amazonlinux_2)
    ∷ (codes "amazonlinux-2023-amd64", amazonlinux_2023)
    ∷ (codes "el7-amd64", el7)
    ∷ (codes "el8-amd64", el8)
    ∷ (codes "el9-amd64", el9)
    ∷ (codes "ubuntu-20.04-amd64", ubuntu_20_04)
    ∷ (codes "ubuntu-22.04-amd64", ubuntu_22_04)
    ∷ (codes "debian-10-amd64", debian_10)
    ∷ (codes "debian-11-amd64", debian_11)
    ∷ (codes "debian-12-amd64", debian_12)
    ∷ (codes "docker-image", docker_image)
    ∷ []

-- `config.targets`
unfoldable pub targets : Result Targets
unfolding populate
targets = populate (map (λ (target, e). target) written) written
