-- ===== src/Risk/Command/Names.antt =====
-- COMMAND_RISK_MAP of shared/risk_config.py: the risk of a command by its name alone.
use xoc_api_aws.Base.{String, List, [], ◌∷◌}
use xoc_api_aws.Risk.Levels.{RiskLevel, basic, controlled, risky, critical}

abbrev pub command_risk_map : List (String × RiskLevel)
command_risk_map =
    ("ls", basic)
    ∷ ("cat", basic)
    ∷ ("head", basic)
    ∷ ("tail", basic)
    ∷ ("file", basic)
    ∷ ("stat", basic)
    ∷ ("find", basic)
    ∷ ("grep", basic)
    ∷ ("egrep", basic)
    ∷ ("fgrep", basic)
    ∷ ("rg", basic)
    ∷ ("awk", basic)
    ∷ ("sort", basic)
    ∷ ("uniq", basic)
    ∷ ("wc", basic)
    ∷ ("echo", basic)
    ∷ ("printf", basic)
    ∷ ("ps", basic)
    ∷ ("top", basic)
    ∷ ("netstat", basic)
    ∷ ("ss", basic)
    ∷ ("ifconfig", basic)
    ∷ ("ip", basic)
    ∷ ("ping", basic)
    ∷ ("df", basic)
    ∷ ("du", basic)
    ∷ ("free", basic)
    ∷ ("uname", basic)
    ∷ ("id", basic)
    ∷ ("whoami", basic)
    ∷ ("date", basic)
    ∷ ("which", basic)
    ∷ ("whereis", basic)
    ∷ ("tree", basic)
    ∷ ("env", basic)
    ∷ ("printenv", basic)
    ∷ ("uptime", basic)
    ∷ ("hostname", basic)
    ∷ ("getent", basic)
    ∷ ("lsof", basic)
    ∷ ("journalctl", basic)
    ∷ ("apt-cache", basic)
    ∷ ("dpkg-query", basic)
    ∷ ("test", basic)
    ∷ ("true", basic)
    ∷ ("false", basic)
    ∷ ("sleep", basic)
    ∷ ("seq", basic)
    ∷ ("diff", basic)
    ∷ ("less", basic)
    ∷ ("more", basic)
    ∷ ("od", basic)
    ∷ ("xxd", basic)
    ∷ ("basename", basic)
    ∷ ("dirname", basic)
    ∷ ("realpath", basic)
    ∷ ("readlink", basic)
    ∷ ("sha256sum", basic)
    ∷ ("md5sum", basic)
    ∷ ("base64", basic)
    ∷ ("mkdir", controlled)
    ∷ ("mv", controlled)
    ∷ ("chmod", controlled)
    ∷ ("chown", controlled)
    ∷ ("systemctl", controlled)
    ∷ ("service", controlled)
    ∷ ("apt", controlled)
    ∷ ("apt-get", controlled)
    ∷ ("dpkg", controlled)
    ∷ ("pip", controlled)
    ∷ ("pip3", controlled)
    ∷ ("npm", controlled)
    ∷ ("tee", controlled)
    ∷ ("kill", controlled)
    ∷ ("pkill", controlled)
    ∷ ("killall", controlled)
    ∷ ("useradd", controlled)
    ∷ ("usermod", controlled)
    ∷ ("groupadd", controlled)
    ∷ ("iptables", controlled)
    ∷ ("ufw", controlled)
    ∷ ("mount", controlled)
    ∷ ("umount", controlled)
    ∷ ("crontab", controlled)
    ∷ ("update-alternatives", controlled)
    ∷ ("sysctl", controlled)
    ∷ ("insmod", controlled)
    ∷ ("modprobe", controlled)
    ∷ ("docker", controlled)
    ∷ ("kubectl", controlled)
    ∷ ("git", controlled)
    ∷ ("patch", controlled)
    ∷ ("rsync", controlled)
    ∷ ("cp", controlled)
    ∷ ("dd", controlled)
    ∷ ("tar", controlled)
    ∷ ("unzip", controlled)
    ∷ ("curl", controlled)
    ∷ ("wget", controlled)
    ∷ ("python", controlled)
    ∷ ("python3", controlled)
    ∷ ("perl", controlled)
    ∷ ("sed", controlled)
    ∷ ("awk2", controlled)
    ∷ ("tr", controlled)
    ∷ ("chattr", controlled)
    ∷ ("setcap", controlled)
    ∷ ("visudo", controlled)
    ∷ ("gpasswd", controlled)
    ∷ ("rm", risky)
    ∷ ("rmdir", risky)
    ∷ ("unlink", risky)
    ∷ ("shred", risky)
    ∷ ("truncate", risky)
    ∷ ("mkfs", critical)
    ∷ ("wipefs", critical)
    ∷ ("fdisk", critical)
    ∷ ("sfdisk", critical)
    ∷ ("parted", critical)
    ∷ ("blockdev", risky)
    ∷ []
