-- ===== src/Config/Validate/Tests.antt =====
-- The validation of a configuration of one user, and its theorems there.
use local_parental_control.Text.{
  Str, codes, to_lower, is_ascii, trim_dot, trim_space, trim_right, trim_left, split, has_prefix,
  is_space, join, split_first, str_ltb,
}
use local_parental_control.Config.{Application, Config}
use local_parental_control.Config.Domain.{
  Unicode, normalize_domain, check_domain, has_url_byte, check_labels, bad_shape, starts_with_dash,
  ends_with_dash, all_label_bytes, is_label_byte,
}
use local_parental_control.Config.Validate.{
  Platform, validate, in_range, validate_unique_user_ids, is_blank, validate_users, validate_user,
  check_hours, check_application, check_applications, check_executables, has_slash, has_space_byte,
  normalize_domains, seen_in, valid_application_id,
}
use local_parental_control.Dict.{lookup, get_or, insert}
use local_parental_control.Int.{pos}
use local_parental_control.Base.{true, ◌≡◌, false, some, ok, ◌∷◌, [], refl}
use local_parental_control.Daemon.Status.{sorted_names, sort_by, insert_by}
use local_parental_control.Config.Domain.Laws.{normalize_domain-normalize_domain}
use local_parental_control.Config.Paths.{
  parse_uint, parse_digits, clean, clean_element, clean_from, elements_of, is_abs,
}
use local_parental_control.Config.Clock.{
  is_digit, get_num, parse_clock, parse_minute, parse_time, skip_colon,
}

abbrev alice : Str
alice = codes "alice"

abbrev browser : Application
browser = record {
  id = codes "firefox";
  name = codes "Firefox";
  executables = codes "/usr/bin/firefox" ∷ [];
  daily_minutes = pos 60;
}

abbrev written : Config
written = record {
  timezone = codes "UTC";
  poll_interval_seconds = pos 2;
  termination_grace_seconds = pos 15;
  users =
      (
        alice,
        record {
          daily_device_minutes = pos 180;
          continuous_use_minutes = pos 60;
          break_minutes = pos 10;
          all_day = false;
          allowed_from = codes "11:00";
          allowed_until = codes "20:00";
          applications = browser ∷ [];
          blocked_domains = codes " Example.org." ∷ [];
        },
      )
      ∷ [];
}

abbrev accepted : Config
accepted = record written {
  users =
      (
        alice,
        record {
          daily_device_minutes = pos 180;
          continuous_use_minutes = pos 60;
          break_minutes = pos 10;
          all_day = false;
          allowed_from = codes "11:00";
          allowed_until = codes "20:00";
          applications = browser ∷ [];
          blocked_domains = codes "example.org" ∷ [];
        },
      )
      ∷ [];
}

abbrev ascii_only : Unicode
ascii_only = record { lower = λ s. s; trim = λ s. s }

abbrev home : Platform
home = record {
  zone_known = λ _. true;
  lookup_user = λ _. some (codes "1000");
  unicode = ascii_only;
  has_unicode_space = λ _. false;
}

example_normal : normalize_domain ascii_only (codes " Example.org.") ≡ ok (codes "example.org")
unfolding normalize_domain check_domain to_lower is_ascii trim_dot trim_space trim_right trim_left
    has_url_byte check_labels split bad_shape starts_with_dash ends_with_dash all_label_bytes
example_normal = refl

validated_now : validate home written ≡ ok accepted
unfolding validate in_range validate_unique_user_ids sorted_names sort_by is_blank trim_space
    is_ascii trim_right trim_left parse_uint parse_digits is_digit lookup validate_users
    validate_user get_or check_hours get_num parse_clock parse_minute parse_time skip_colon
    all_label_bytes bad_shape check_domain check_labels ends_with_dash has_url_byte is_label_byte
    normalize_domain starts_with_dash clean clean_element clean_from elements_of is_abs
    check_application check_applications check_executables has_slash has_space_byte
    normalize_domains seen_in valid_application_id insert_by insert has_prefix is_space join split
    split_first str_ltb to_lower trim_dot
validated_now = refl

normalize_domain-normalize_domain_example :
    normalize_domain ascii_only (codes "example.org") ≡ ok (codes "example.org")
normalize_domain-normalize_domain_example =
    normalize_domain-normalize_domain ascii_only (codes " Example.org.") example_normal
