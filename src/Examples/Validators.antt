-- ===== src/Examples/Validators.antt =====
-- Texts that are accepted.
use usbover_ip.Base.{String, ◌≡◌, refl}
use usbover_ip.Base.Exec.{ok}
use usbover_ip.Validate.{codes, host_char, validate_hostname, validate_service_name}
use usbover_ip.Validate.Shape.{Named, validate_hostname-Named}

abbrev host : String
host = "pi-4.lan"

abbrev service : String
service = "getty@tty1.service"

accepted_host : validate_hostname host ≡ ok host
unfolding validate_hostname
accepted_host = refl

validate_hostname-Named_example : (host ≡ host) × Named host_char 255 (codes host)
validate_hostname-Named_example = validate_hostname-Named host host accepted_host

accepted_service : validate_service_name service ≡ ok service
unfolding validate_service_name
accepted_service = refl
